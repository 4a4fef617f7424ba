-- ===== src/Heap/FreeList/Remove.antt =====
-- `remove_from_free_list` of src/memory/kheap.c takes one block out of a well-formed free list.
use meringue_os.Prelude.{
  ℕ, ◌≡◌, ◌≢◌, inl, inr, refl, ◌∙◌, List, [], ◌∷◌, ◌++◌, false, ◌==◌, arith, if◌then◌else◌,
  Bool-cases, first_or, last_or, All, Pairs, All-last_or, All-append, All-without, All-mono,
  All-zip, Pairs-without, Pairs-left, Pairs-right, All-always, All-both,
}
use meringue_os.Memory.{Mem}
use meringue_os.Heap.{unlink, Kheap, mem, remove_from_free_list}
use meringue_os.Heap.Header.{next_free_at, prev_free_at}
use meringue_os.Heap.Fields.{header, Apart}
use meringue_os.Heap.Links.{Aside, Apart-sym, unlink_self, unlink-Apart, unlink_prev, unlink_next}
use meringue_os.Heap.Links.Rest.{Rest, Meets, unlink-Rest}
use meringue_os.Heap.Segments.{Seg, Same, Seg-join, Seg-Retargeted, Seg-reprev, IsPtr, IsFreeList}
use meringue_os.Heap.FreeList.{
  first-Aside, retarget, chains, ptrs_left, ptrs_right, left-Apart, right-Apart, block-IsLinked,
}

-- The block before, if there is one, is apart from all that are behind.
prev-Aside :
    (ys ws : List ℕ) → All IsPtr ys → All (λ y. All (Apart y) ws) ys → All (Aside (last_or 0 ys)) ws
prev-Aside [] ws p h = All-always _ ws (λ q. inl refl)
prev-Aside (y ∷ ys) ws (py, p) (hy, h) =
    All-mono _ _ ws (λ q a. inr ((All-last_or IsPtr y ys py p).0, a))
      (All-last_or (λ z. All (Apart z) ws) y ys hy h)

Aside-Meets : (p q : ℕ) → Aside p q → p ≢ 0 → Meets p q
Aside-Meets p q (inl z) ne = absurd (ne z)
Aside-Meets p q (inr (n, a)) ne = inr a

-- The last block of a list is one of it or apart.
last-Meets : (y : ℕ) (ys : List ℕ) → Pairs Apart (y ∷ ys) → All (Meets (last_or y ys)) (y ∷ ys)
last-Meets y [] p = (inl refl, tt)
last-Meets y (z ∷ zs) ((a, as_), p) =
    (inr (Apart-sym y (last_or z zs) (All-last_or (Apart y) z zs a as_)), last-Meets z zs p)

last-Meets-All :
    (ys : List ℕ) → Pairs Apart ys → All (λ q. last_or 0 ys ≢ 0 → Meets (last_or 0 ys) q) ys
last-Meets-All [] p = tt
last-Meets-All (y ∷ ys) p =
    All-mono (Meets (last_or y ys)) _ (y ∷ ys) (λ q h ne. h) (last-Meets y ys p)

first-Meets-All :
    (zs : List ℕ) → Pairs Apart zs → All (λ q. first_or 0 zs ≢ 0 → Meets (first_or 0 zs) q) zs
first-Meets-All [] p = tt
first-Meets-All (z ∷ zs) p = (λ ne. inl refl, All-mono (Apart z) _ zs (λ q a ne. inr a) p.0)

-- A list of blocks begins with NULL exactly if it ends with NULL: if it is empty.
ends : (ys : List ℕ) → All IsPtr ys → (last_or 0 ys == 0) ≡ (first_or 0 ys == 0)
ends [] p = refl
ends (y ∷ ys) (py, p) =
    let n : last_or y ys ≢ 0 = (All-last_or IsPtr y ys py p).0 in
    let n' : y ≢ 0 = py.0 in ground arith

module _ (m : Mem) (head block : ℕ) where
  -- The blocks before the removed one.
  left_segment :
      (ys zs : List ℕ)
      → IsFreeList m head (ys ++ block ∷ zs)
      → Seg
          (unlink m block)
          0
          (if first_or 0 ys == 0 then first_or 0 zs else head)
          ys
          (first_or 0 zs)
  left_segment [] zs f = refl
  left_segment (y ∷ ys) zs f =
      let ws = y ∷ ys in
      let k = unlink m block in
      let l = block-IsLinked m head block ws zs f in
      let pf = last_or y ys in
      let nf = first_or 0 zs in
      let pl = ptrs_left m head block ws zs f in
      let pr = ptrs_right m head block ws zs f in
      let la = left-Apart m head block ws zs f in
      let ne : pf ≢ 0 = (All-last_or IsPtr y ys pl.0 pl.1).0 in
      let end_apart = All-last_or (λ q. Apart q block × All (Apart q) zs) y ys la.0 la.1 in
      let end_aside : Aside nf pf = first-Aside zs pf pr end_apart.1 in
      let e = unlink_prev m block pf nf l ne end_aside (Apart-sym pf block end_apart.0) in
      let others : All (λ q. Apart q pf → header k q ≡ header m q) ws =
        All-mono _ _ ws
          (λ q h apart.
            unlink-Apart m block pf nf l q (inr (ne, Apart-sym q pf apart))
              (first-Aside zs q pr h.1) (Apart-sym q block h.0))
          la in
      let spread = Pairs-left Apart ws (block ∷ zs) f.spread in
      let t : (y == 0) ≡ false = let n : y ≢ 0 = pl.0.0 in ground arith in
      rw t (
        Seg-Retargeted m k 0 head y ys block nf (retarget m k nf y ys spread e others)
          (chains m head block ws zs f).0)

  -- The blocks behind it.
  right_segment :
      (ys zs : List ℕ)
      → IsFreeList m head (ys ++ block ∷ zs)
      → Seg (unlink m block) (last_or 0 ys) (first_or 0 zs) zs 0
  right_segment ys [] f = refl
  right_segment ys (z ∷ zs) f =
      let ws = z ∷ zs in
      let k = unlink m block in
      let l = block-IsLinked m head block ys ws f in
      let pf = last_or 0 ys in
      let pl = ptrs_left m head block ys ws f in
      let pr = ptrs_right m head block ys ws f in
      let la = left-Apart m head block ys ws f in
      let ra = right-Apart m head block ys ws f in
      let spread = (Pairs-right Apart ys (block ∷ ws) f.spread).1 in
      let asides = prev-Aside ys ws pl (All-mono _ _ ys (λ y h. h.1) la) in
      let ne : z ≢ 0 = pr.0.0 in
      let e = unlink_next m block pf z l ne asides.0 ra.0 in
      let others : Same m k zs =
        All-mono _ _ zs (λ q h. unlink-Apart m block pf z l q h.0 (inr (ne, h.1.0)) h.1.1)
          (All-both _ _ zs asides.1 (All-both _ _ zs spread.0 ra.1)) in
      Seg-reprev m k block pf z z zs 0 e others (chains m head block ys ws f).3

  -- Only the links of the list change in the headers of the blocks that are left.
  pub unlink-Rests :
      (ys zs : List ℕ)
      → IsFreeList m head (ys ++ block ∷ zs)
      → All (Rest m (unlink m block)) (ys ++ zs)
  unlink-Rests ys zs f =
      let l = block-IsLinked m head block ys zs f in
      let pl = ptrs_left m head block ys zs f in
      let pr = ptrs_right m head block ys zs f in
      let la = left-Apart m head block ys zs f in
      let ra = right-Apart m head block ys zs f in
      let sl = Pairs-left Apart ys (block ∷ zs) f.spread in
      let sr = (Pairs-right Apart ys (block ∷ zs) f.spread).1 in
      All-append (Rest m (unlink m block)) ys zs
        (All-zip _ _ _ ys
          (λ q h mp.
            unlink-Rest m block (last_or 0 ys) (first_or 0 zs) l q (Apart-sym q block h.0) mp
              (Aside-Meets (first_or 0 zs) q (first-Aside zs q pr h.1)))
          la (last-Meets-All ys sl))
        (All-zip _ _ _ zs
          (λ q h mn.
            unlink-Rest m block (last_or 0 ys) (first_or 0 zs) l q h.1
              (Aside-Meets (last_or 0 ys) q h.0) mn)
          (All-both _ _ zs (prev-Aside ys zs pl (All-mono _ _ ys (λ y h. h.1) la)) ra)
          (first-Meets-All zs sr))

  -- What is left is a free list, headed by the block behind if the removed block was the head.
  pub unlink-IsFreeList :
      (ys zs : List ℕ)
      → IsFreeList m head (ys ++ block ∷ zs)
      → IsFreeList
          (unlink m block)
          (if prev_free_at m block == 0 then next_free_at m block else head)
          (ys ++ zs)
  unlink-IsFreeList ys zs f =
      let (left, back, next, right) = chains m head block ys zs f in
      record {
        chain =
            rw (back, next, ends ys (ptrs_left m head block ys zs f))
              (Seg-join (unlink m block) 0 _ ys zs 0 (left_segment ys zs f)
                (right_segment ys zs f));
        ptrs = All-without IsPtr ys block zs f.ptrs;
        spread = Pairs-without Apart ys block zs f.spread;
        free =
            All-zip (Rest m (unlink m block)) _ _ (ys ++ zs) (λ q r e. r.3 ∙ e)
              (unlink-Rests ys zs f) (All-without _ ys block zs f.free);
      }

-- Where the free list is well-formed, `remove_from_free_list` takes a block out of it, wherever it
-- stands in it, and keeps it well-formed, the order of the others and all of their headers but the
-- links of the list; the block is not free any more, its links are NULL, and its size and its
-- neighbours in memory stay.
pub remove_from_free_list-IsFreeList :
    (block : ℕ) (h : Kheap) (ys zs : List ℕ)
    → IsFreeList (mem h) h.free_list_head (ys ++ block ∷ zs)
    → IsFreeList
        (mem (remove_from_free_list block h))
        (remove_from_free_list block h).free_list_head
        (ys ++ zs)
      × (header (mem (remove_from_free_list block h)) block
          ≡ record (header (mem h) block) { is_free = false; next_free = 0; prev_free = 0 })
      × All (Rest (mem h) (mem (remove_from_free_list block h))) (ys ++ zs)
unfolding remove_from_free_list
remove_from_free_list-IsFreeList block h ys zs f =
    let m = mem h in
    let g = unlink-IsFreeList m h.free_list_head block ys zs f in
    (
      elim (Bool-cases (prev_free_at m block == 0)) [
        | inl z ↦ rw z (rw z at g)
        | inr n ↦ rw n (rw n at g)
      ],
      unlink_self m block (last_or 0 ys) (first_or 0 zs)
          (block-IsLinked m h.free_list_head block ys zs f),
      unlink-Rests m h.free_list_head block ys zs f,
    )
