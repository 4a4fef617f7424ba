-- ===== src/Heap/Malloc/Split.antt =====
-- The split of a block in `kmalloc` of src/memory/kheap.c.
pub mod Rest
use meringue_os.Prelude.{
  ℕ, ◌+◌, ◌<◌, ◌≡◌, ◌≢◌, refl, ap, ◌∙◌, true, List, ◌∷◌, All, All-zip, All-both, arith, ◌==◌,
  if◌then◌else◌, Bool-cases, inl, inr, word_mod, sub64,
}
use meringue_os.Memory.{Mem}
use meringue_os.Heap.{Kheap, mem, with_mem, split, add_to_free_list}
use meringue_os.Heap.Header.{
  header_size, size_at, next_at, set_size, set_is_free, set_next, set_prev,
}
use meringue_os.Heap.Fields.{
  header, Apart, set_size_apart, set_is_free_apart, set_next_apart, set_prev_apart, set_size_self,
  set_next_self, set_prev_self,
}
use meringue_os.Heap.Links.{Apart-sym}
use meringue_os.Heap.Links.Rest.{Meets, link_free-Rest}
use meringue_os.Heap.Segments.{IsFreeList}
use meringue_os.Heap.FreeList.{add_to_free_list-IsFreeList}
use meringue_os.Heap.Malloc.{
  Linked, Linked-header, Linked-trans, set_prev-Linked, IsFreeList-Linked, head-Meets,
}

-- The header at `p` that the new block at `rest` is written to, and those beside it.
module _ (m : Mem) (block size : ℕ) where
  pub behind : ℕ
  behind = block + header_size + size

  -- The new header, with `next` copied from the block.
  pub fresh : Mem
  fresh =
      let t = set_size m behind (sub64 (sub64 (size_at m block) size) header_size) in
      let t = set_is_free t behind true in
      set_prev (set_next t behind (next_at t block)) behind block

  -- The block that came after it points back to the new one, if there is any.
  pub backed : Mem
  backed = if next_at fresh behind == 0 then fresh else set_prev fresh (next_at fresh behind) behind

  -- The block itself, cut to `size`.
  pub cut : Mem
  cut = set_next (set_size backed block size) block behind

  module _ (bound : block + header_size + size < word_mod) where
    pub block-Apart : Apart block behind
    unfolding behind
    block-Apart = inl (omega arith)

    pub behind_fits : behind < word_mod
    unfolding behind
    behind_fits = bound

    pub fresh_other : (q : ℕ) → Apart behind q → header fresh q ≡ header m q
    unfolding fresh
    fresh_other q a =
        set_prev_apart _ behind q a _
        ∙ set_next_apart _ behind q a _
        ∙ set_is_free_apart _ behind q a _
        ∙ set_size_apart _ behind q a _

    -- The next block, if there is one, is no part of this one.
    module _ (fits : next_at m block < word_mod) where
      pub fresh_next : next_at fresh behind ≡ next_at m block
      unfolding fresh
      fresh_next =
          let t = set_size m behind (sub64 (sub64 (size_at m block) size) header_size) in
          let u = set_is_free t behind true in
          let a = Apart-sym block behind block-Apart in
          let e : next_at u block ≡ next_at m block =
            ap (λ r. r.next)
              (set_is_free_apart t behind block a true ∙ set_size_apart m behind block a _) in
          let k = set_next u behind (next_at u block) in
          ap (λ r. r.next) (set_prev_self k behind block (omega (arith, bound)))
          ∙ ap (λ r. r.next) (set_next_self u behind (next_at u block) (omega (arith, e)))
          ∙ e

      backed-Linked :
          (q : ℕ)
          → Apart behind q
          → (next_at m block ≢ 0 → Meets (next_at m block) q)
          → Linked m backed q
      unfolding backed
      backed-Linked q a meets = elim (Bool-cases (next_at fresh behind == 0)) [
        | inl z ↦ rw z (Linked-header m fresh q (fresh_other q a))
        | inr n ↦
            let ne : next_at m block ≢ 0 = ground (arith, fresh_next) in
            rw n (
              Linked-trans m fresh _ q (Linked-header m fresh q (fresh_other q a)) (
                set_prev-Linked fresh (next_at fresh behind) q behind behind_fits
                  (rw fresh_next (meets ne))))
      ]

      cut-Linked :
          (q : ℕ)
          → Apart behind q
          → Apart block q
          → (next_at m block ≢ 0 → Meets (next_at m block) q)
          → Linked m cut q
      unfolding cut
      cut-Linked q a b meets = Linked-trans m backed _ q (backed-Linked q a meets) (
          Linked-header backed _ q
            (set_next_apart _ block q b _ ∙ set_size_apart backed block q b size))

      cut_size : size_at cut block ≡ size
      unfolding cut
      cut_size =
          ap (λ r. r.size) (set_next_self (set_size backed block size) block behind behind_fits)
          ∙ ap (λ r. r.size) (set_size_self backed block size (omega (arith, bound)))

module _ (h : Kheap) (block size : ℕ) where
  pub cut_heap : Kheap
  cut_heap = record (with_mem h (cut (mem h) block size)) {
    heap_end =
        if next_at (fresh (mem h) block size) (behind (mem h) block size) == 0
        then behind (mem h) block size
        else h.heap_end;
  }

  pub split_cut : split block size h ≡ add_to_free_list (block + header_size + size) cut_heap
  unfolding split cut_heap cut backed fresh behind
  split_cut = refl

  -- `split` puts the new block in front of the free list and keeps the list behind it; the block has
  -- `size` bytes then.
  pub split_list :
      (xs : List ℕ)
      → block + header_size + size < word_mod
      → next_at (mem h) block < word_mod
      → IsFreeList (mem h) h.free_list_head xs
      → All (Apart (block + header_size + size)) xs
      → All (Apart block) xs
      → All (λ q. next_at (mem h) block ≢ 0 → Meets (next_at (mem h) block) q) xs
      → IsFreeList
          (mem (split block size h))
          (split block size h).free_list_head
          ((block + header_size + size) ∷ xs)
        × (size_at (mem (split block size h)) block ≡ size)
  unfolding cut_heap behind
  split_list xs bound fits f away beside meets =
      let m = mem h in
      let rest = block + header_size + size in
      let k = cut m block size in
      let same : All (Linked m k) xs =
        All-zip _ _ _ xs (λ q a n. cut-Linked m block size bound fits q a.0 a.1 n)
          (All-both _ _ xs away beside) meets in
      let g = IsFreeList-Linked m k h.free_list_head xs f same in
      let (meet, low) = head-Meets m h.free_list_head block xs f beside in
      let apart = Apart-sym block rest (block-Apart m block size bound) in
      let kept = link_free-Rest k h.free_list_head rest block low bound apart meet in
      (
        rw split_cut (add_to_free_list-IsFreeList rest cut_heap xs g (omega arith, bound) away),
        rw split_cut (unfold add_to_free_list in kept.0 ∙ cut_size m block size bound fits),
      )
