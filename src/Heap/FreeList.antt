-- ===== src/Heap/FreeList.antt =====
-- `add_to_free_list` and `remove_from_free_list` of src/memory/kheap.c on a well-formed free list.
pub mod Remove
pub mod Outside
use meringue_os.Prelude.{
  ℕ, ◌+◌, ◌≤◌, ◌<◌, ◌≡◌, ◌≢◌, ◌⊎◌, inl, inr, refl, sym, ap, ◌∙◌, List, [], ◌∷◌, ◌++◌, Bool, true,
  false, not, ◌==◌, arith, if◌then◌else◌, word_mod, first_or, last_or, All, Pairs, All-last_or,
  All-left, All-right, All-without, All-mono, All-zip, Pairs-without, Pairs-before, Pairs-left,
  Pairs-right, Pairs-cross,
}
use mathlib.Core.Path.{subst}
use meringue_os.Memory.{Mem}
use meringue_os.Heap.{link_free, unlink, Kheap, mem, add_to_free_list, remove_from_free_list}
use meringue_os.Heap.Header.{next_free_at, prev_free_at, is_free_at}
use meringue_os.Heap.Fields.{header, Apart}
use meringue_os.Heap.Links.{
  Aside, IsLinked, Apart-sym, link_free_self, link_free_head, link_free-Apart, unlink_self,
  unlink-Apart, unlink_prev, unlink_next,
}
use meringue_os.Heap.Segments.{
  Seg, Same, Seg-Same, Seg-cut, Seg-join, Retargeted, Seg-Retargeted, Seg-reprev, IsPtr, IsFreeList,
}

module _ (m : Mem) (block : ℕ) (pb : IsPtr block) where
  -- The old list behind a block that is put in front of it.
  Pushed : ℕ → List ℕ → Type 0
  Pushed head xs =
      Seg (link_free m head block) block head xs 0
      × All (λ b. is_free_at (link_free m head block) b ≡ true) xs
      × (header (link_free m head block) block
          ≡ record (header m block) { is_free = true; next_free = head; prev_free = 0 })

  Pushed-cons :
      (x : ℕ) (xs : List ℕ)
      → IsFreeList m x (x ∷ xs)
      → All (Apart block) (x ∷ xs)
      → Pushed x (x ∷ xs)
  unfolding Pushed
  Pushed-cons x xs f (ax, apart) =
      let (ne, fits) = f.ptrs.0 in
      let first = link_free_head m x block fits pb.1 ne ax in
      let others : Same m (link_free m x block) xs =
        All-zip (Apart x) (Apart block) _ xs
          (λ q a b. link_free-Apart m x block fits pb.1 q (inr (ne, a)) b) f.spread.0 apart in
      (
        Seg-reprev m (link_free m x block) 0 block x x xs 0 first others f.chain,
        (
          ap (λ r. r.is_free) first ∙ f.free.0,
          All-zip (λ q. header (link_free m x block) q ≡ header m q) (λ q. is_free_at m q ≡ true) _
              xs (λ q e t. ap (λ r. r.is_free) e ∙ t) others f.free.1,
        ),
        link_free_self m x block fits pb.1 (inr (ne, Apart-sym block x ax)),
      )

  pushed : (head : ℕ) (xs : List ℕ) → IsFreeList m head xs → All (Apart block) xs → Pushed head xs
  unfolding Pushed
  pushed head [] f apart =
      let z : head ≡ 0 = f.chain in (z, tt, link_free_self m head block (omega arith) pb.1 (inl z))
  pushed head (x ∷ xs) f apart =
      let at : head ≡ x = f.chain.0 in
      let g : IsFreeList m x (x ∷ xs) = record {
        chain = (refl, f.chain.1, f.chain.2);
        ptrs = f.ptrs;
        spread = f.spread;
        free = f.free;
      } in
      subst (λ p. Pushed p (x ∷ xs)) (sym at) (Pushed-cons x xs g apart)

  pub link_free-IsFreeList :
      (head : ℕ) (xs : List ℕ)
      → IsFreeList m head xs
      → All (Apart block) xs
      → IsFreeList (link_free m head block) block (block ∷ xs)
  unfolding Pushed
  link_free-IsFreeList head xs f apart =
      let (chain, free, self) = pushed head xs f apart in
      let next : next_free_at (link_free m head block) block ≡ head = ap (λ r. r.next_free) self in
      record {
        chain = (refl, ap (λ r. r.prev_free) self, rw next chain);
        ptrs = (pb, f.ptrs);
        spread = (apart, f.spread);
        free = (ap (λ r. r.is_free) self, free);
      }

-- From a state whose free list holds the blocks `xs`, `add_to_free_list` of a block, not NULL,
-- whose header overlaps none of theirs leads to one whose list holds that block and then `xs`: a
-- doubly linked list of free blocks that ends in NULL both ways.
pub add_to_free_list-IsFreeList :
    (block : ℕ) (h : Kheap) (xs : List ℕ)
    → IsFreeList (mem h) h.free_list_head xs
    → IsPtr block
    → All (Apart block) xs
    → IsFreeList
        (mem (add_to_free_list block h))
        (add_to_free_list block h).free_list_head
        (block ∷ xs)
unfolding add_to_free_list
add_to_free_list-IsFreeList block h xs f pb apart =
    link_free-IsFreeList (mem h) block pb h.free_list_head xs f apart

-- The neighbours of `block` in the list `ys ++ block ∷ zs`: NULL, or one of the blocks.
last-Aside : (ys : List ℕ) (q : ℕ) → All IsPtr ys → All (λ y. Apart y q) ys → Aside (last_or 0 ys) q
last-Aside [] q p a = inl refl
last-Aside (y ∷ ys) q (py, p) (ay, a) =
    inr ((All-last_or IsPtr y ys py p).0, All-last_or (λ z. Apart z q) y ys ay a)

first-Aside :
    (zs : List ℕ) (q : ℕ) → All IsPtr zs → All (λ z. Apart q z) zs → Aside (first_or 0 zs) q
first-Aside [] q p a = inl refl
first-Aside (z ∷ zs) q p a = inr (p.0.0, Apart-sym q z a.0)

last_fits : (ys : List ℕ) → All IsPtr ys → last_or 0 ys < word_mod
last_fits [] p = omega arith
last_fits (y ∷ ys) (py, p) = (All-last_or IsPtr y ys py p).1

first_fits : (zs : List ℕ) → All IsPtr zs → first_or 0 zs < word_mod
first_fits [] p = omega arith
first_fits (z ∷ zs) p = p.0.1

-- Where a segment ends by a new pointer, its other headers may be anything that stays apart.
retarget :
    (m k : Mem) (stop y : ℕ) (ys : List ℕ)
    → Pairs Apart (y ∷ ys)
    → header k (last_or y ys) ≡ record (header m (last_or y ys)) { next_free = stop }
    → All (λ q. Apart q (last_or y ys) → header k q ≡ header m q) (y ∷ ys)
    → Retargeted m k stop y ys
retarget m k stop y [] spread e h = e
retarget m k stop y (z ∷ zs) ((az, a), spread) e (hy, h) =
    (hy (All-last_or (Apart y) z zs az a), retarget m k stop z zs spread e h)

module _ (m : Mem) (head block : ℕ) (ys zs : List ℕ)
    (f : IsFreeList m head (ys ++ block ∷ zs)) where
  chains :
      Seg m 0 head ys block
      × (prev_free_at m block ≡ last_or 0 ys)
      × (next_free_at m block ≡ first_or 0 zs)
      × Seg m block (first_or 0 zs) zs 0
  chains =
      let (left, (e, back, rest)) = Seg-cut m 0 head ys (block ∷ zs) 0 f.chain in
      let (next, right) = Seg-cut m block (next_free_at m block) [] zs 0 rest in
      (left, back, next, right)

  ptrs_left : All IsPtr ys
  ptrs_left = All-left IsPtr ys (block ∷ zs) f.ptrs

  ptrs_right : All IsPtr zs
  ptrs_right = (All-right IsPtr ys (block ∷ zs) f.ptrs).1

  left-Apart : All (λ y. Apart y block × All (Apart y) zs) ys
  left-Apart = Pairs-cross Apart ys (block ∷ zs) f.spread

  right-Apart : All (Apart block) zs
  right-Apart = (Pairs-right Apart ys (block ∷ zs) f.spread).0

  block-IsLinked : IsLinked m block (last_or 0 ys) (first_or 0 zs)
  block-IsLinked = record {
    to_prev = chains.1;
    to_next = chains.2;
    prev_fits = last_fits ys ptrs_left;
    next_fits = first_fits zs ptrs_right;
    prev_aside = last-Aside ys block ptrs_left (All-mono _ _ ys (λ y h. h.0) left-Apart);
    next_aside = first-Aside zs block ptrs_right right-Apart;
  }
