-- ===== src/Heap/Free.antt =====
-- `kfree` of src/memory/kheap.c: a block goes back to the free list, joined with the free block behind
-- it in memory, if there is one.
pub mod Merge
use meringue_os.Prelude.{
  ℕ, ◌+◌, ◌-◌, ◌%◌, ◌<◌, ◌≤◌, ◌≡◌, ◌≢◌, ◌⊎◌, refl, ap, sym, ◌∙◌, Bool, true, false, not, ◌&&◌, ◌||◌,
  List, [], ◌∷◌, ◌++◌, All, All-mono, All-without, arith, ◌==◌, if◌then◌else◌, Bool-cases, inl, inr,
  word_mod, add64, sub64,
}
use meringue_os.Memory.{Mem}
use meringue_os.Heap.{
  Kheap, mem, with_mem, add_to_free_list, remove_from_free_list, absorb, coalesce_next,
  coalesce_prev, coalesce, kfree,
}
use meringue_os.Heap.Header.{header_size, size_at, is_free_at, next_at, prev_at, set_is_free}
use meringue_os.Heap.Fields.{header, Apart, set_is_free_apart, set_is_free_self}
use meringue_os.Heap.Links.{Aside, Apart-sym, link_free_self}
use meringue_os.Heap.Links.Rest.{Meets}
use meringue_os.Heap.Segments.{IsPtr, IsFreeList}
use meringue_os.Heap.FreeList.{add_to_free_list-IsFreeList}
use meringue_os.Heap.FreeList.Remove.{remove_from_free_list-IsFreeList}
use meringue_os.Heap.FreeList.Outside.{remove_from_free_list-outside}
use meringue_os.Heap.Malloc.{Linked, Linked-header, IsFreeList-Linked, head-Meets}
use meringue_os.Heap.Coalesce.{absorb_lem, absorb-Linked}

-- There is no block at `p`, or one that is not free and apart from the block.
abbrev pub IsBusy : Mem → ℕ → ℕ → Type 0
IsBusy m block p = (p ≡ 0) ⊎ ((is_free_at m p ≡ false) × Apart block p)

head-Aside :
    (m : Mem) (head q : ℕ) (xs : List ℕ) → IsFreeList m head xs → All (Apart q) xs → Aside head q
head-Aside m head q [] f a = inl f.chain
head-Aside m head q (x ∷ xs) f a =
    let e : head ≡ x = f.chain.0 in let p : x ≢ 0 = f.ptrs.0.0 in rw e (inr (p, Apart-sym q x a.0))

-- The test that `coalesce` makes of a neighbour.
busy_test : (m : Mem) (block p : ℕ) → IsBusy m block p → (not (p == 0) && is_free_at m p) ≡ false
busy_test m block p (inl z) = ground arith
busy_test m block p (inr (f, a)) = ground arith

module _ (h : Kheap) (block : ℕ) (pb : IsPtr block) (room : block + header_size < word_mod)
    (used : is_free_at (mem h) block ≡ false) where
  released : Kheap
  released = with_mem h (set_is_free (mem h) block true)

  released_self : header (mem released) block ≡ record (header (mem h) block) { is_free = true }
  unfolding released
  released_self = set_is_free_self (mem h) block true

  released_other : (q : ℕ) → Apart block q → header (mem released) q ≡ header (mem h) q
  unfolding released
  released_other q a = set_is_free_apart (mem h) block q a true

  released_list :
      (xs : List ℕ)
      → IsFreeList (mem h) h.free_list_head xs
      → All (Apart block) xs
      → IsFreeList (mem released) released.free_list_head xs
  unfolding released
  released_list xs f away = IsFreeList-Linked (mem h) _ h.free_list_head xs f (
      All-mono _ _ xs (λ q a. Linked-header (mem h) _ q (set_is_free_apart (mem h) block q a true))
        away)

  -- A busy neighbour stays busy.
  released-IsBusy : (p : ℕ) → IsBusy (mem h) block p → IsBusy (mem released) block p
  released-IsBusy p (inl z) = inl z
  released-IsBusy p (inr (f, a)) = inr (ap (λ r. r.is_free) (released_other p a) ∙ f, a)

  -- What `kfree` does once the two halves of `coalesce` are known.
  kfree_from :
      (k : Kheap)
      → coalesce_next block released ≡ k
      → IsBusy (mem k) block (prev_at (mem k) block)
      → kfree (block + header_size) h ≡ add_to_free_list block k
  unfolding kfree coalesce coalesce_prev released
  kfree_from k e busy =
      let low : sub64 (block + header_size) header_size ≡ block = omega (arith, room) in
      let ne : (block + header_size == 0) ≡ false = ground arith in
      let ne' : (block == 0) ≡ false = let p = pb.0 in ground arith in
      let free : is_free_at (set_is_free (mem h) block true) block ≡ true =
        ap (λ r. r.is_free) released_self in
      rw (low, ne, used, free, ne', e, busy_test (mem k) block (prev_at (mem k) block) busy) refl

  -- The end: the block is put in front, and keeps its size.
  added :
      (k : Kheap) (xs : List ℕ)
      → IsFreeList (mem k) k.free_list_head xs
      → All (Apart block) xs
      → IsFreeList
          (mem (add_to_free_list block k))
          (add_to_free_list block k).free_list_head
          (block ∷ xs)
        × (size_at (mem (add_to_free_list block k)) block ≡ size_at (mem k) block)
  unfolding add_to_free_list
  added k xs f away = (
    add_to_free_list-IsFreeList block k xs f pb away,
    ap (λ r. r.size)
        (link_free_self (mem k) k.free_list_head block
          (head-Meets (mem k) k.free_list_head block xs f away).1 pb.1
          (head-Aside (mem k) k.free_list_head block xs f away)),
  )

  -- Freeing the data of a block that is in use, where neither neighbour in memory is free: `kfree`
  -- puts the block in front of the free list, which stays well-formed, and the block keeps its size.
  -- The headers involved are apart.
  pub kfree_alone :
      (xs : List ℕ)
      → IsFreeList (mem h) h.free_list_head xs
      → All (Apart block) xs
      → IsBusy (mem h) block (next_at (mem h) block)
      → IsBusy (mem h) block (prev_at (mem h) block)
      → IsFreeList
          (mem (kfree (block + header_size) h))
          (kfree (block + header_size) h).free_list_head
          (block ∷ xs)
        × (size_at (mem (kfree (block + header_size) h)) block ≡ size_at (mem h) block)
  kfree_alone xs f away busy before =
      let next : next_at (mem released) block ≡ next_at (mem h) block =
        ap (λ r. r.next) released_self in
      let prev : prev_at (mem released) block ≡ prev_at (mem h) block =
        ap (λ r. r.prev) released_self in
      let test = busy_test (mem released) block _ (released-IsBusy _ busy) in
      let skips : coalesce_next block released ≡ released =
        unfold coalesce_next in rw (next, test) refl in
      let (list, size) = added released xs (released_list xs f away) away in
      let same = kfree_from released skips (rw prev (released-IsBusy _ before)) in
      (rw same list, rw same (size ∙ ap (λ r. r.size) released_self))
