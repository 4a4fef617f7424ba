-- ===== src/Heap/Free/Merge.antt =====
-- `kfree` of src/memory/kheap.c where the block behind the freed one is free.
use meringue_os.Prelude.{
  ℕ, ◌+◌, ◌<◌, ◌≡◌, ◌≢◌, ◌⊎◌, refl, ap, ◌∙◌, true, false, List, ◌∷◌, ◌++◌, All, All-mono,
  All-append, All-right, All-without, Pairs-before, Pairs-right, arith, ◌==◌, inl, inr, word_mod,
  add64,
}
use meringue_os.Memory.{Mem}
use meringue_os.Heap.{Kheap, mem, remove_from_free_list, absorb, coalesce_next, kfree}
use meringue_os.Heap.Header.{header_size, size_at, is_free_at, next_at, prev_at}
use meringue_os.Heap.Fields.{header, Apart}
use meringue_os.Heap.Links.{Apart-sym}
use meringue_os.Heap.Links.Rest.{Meets}
use meringue_os.Heap.Segments.{IsPtr, IsFreeList}
use meringue_os.Heap.FreeList.Remove.{remove_from_free_list-IsFreeList}
use meringue_os.Heap.FreeList.Outside.{remove_from_free_list-outside}
use meringue_os.Heap.Coalesce.{absorb_lem, absorb-Linked}
use meringue_os.Heap.Free.{
  IsBusy, released, released_self, released_other, released_list, kfree_from, added,
}

-- The free list holds `ys`, `next` and `zs`, apart from the block; `next` is the block behind it in
-- memory, and what is behind `next` is apart from the block and from the free ones, or one of them.
pub record IsMergeable (m : Mem) (head block next : ℕ) (ys zs : List ℕ) : Type 0 where
  pub list : IsFreeList m head (ys ++ next ∷ zs)
  pub away : All (Apart block) (ys ++ next ∷ zs)
  pub at : next_at m block ≡ next
  pub fits : next_at m next < word_mod
  pub off : next_at m next ≢ 0 → Apart (next_at m next) block
  pub meets : All (λ q. next_at m next ≢ 0 → Meets (next_at m next) q) (ys ++ zs)

-- There is no block at `p`, or one that is not free, and apart from the block and the free ones; what
-- is behind `next` is apart from it or is itself.
abbrev pub IsBusyBefore : Mem → ℕ → ℕ → List ℕ → ℕ → Type 0
IsBusyBefore m block next xs p =
    (p ≡ 0)
    ⊎ ((is_free_at m p ≡ false)
        × Apart block p
        × All (Apart p) xs
        × (next_at m next ≢ 0 → Meets (next_at m next) p))

module _ (h : Kheap) (block : ℕ) (pb : IsPtr block) (room : block + header_size < word_mod)
    (used : is_free_at (mem h) block ≡ false) (next : ℕ) (ys zs : List ℕ)
    (ok : IsMergeable (mem h) h.free_list_head block next ys zs) where
  start : Kheap
  start = released h block pb room used

  start_list : IsFreeList (mem start) start.free_list_head (ys ++ next ∷ zs)
  unfolding start
  start_list = released_list h block pb room used (ys ++ next ∷ zs) ok.list ok.away

  next-Apart : Apart block next
  next-Apart = (All-right (Apart block) ys (next ∷ zs) ok.away).0

  others-Apart : All (Apart next) (ys ++ zs)
  others-Apart =
      All-append (Apart next) ys zs
        (All-mono _ _ ys (λ y a. Apart-sym y next a) (Pairs-before Apart ys next zs ok.list.spread))
        (Pairs-right Apart ys (next ∷ zs) ok.list.spread).0

  removed : Kheap
  removed = remove_from_free_list next start

  -- The two headers before they are joined.
  removed_block : header (mem removed) block ≡ record (header (mem h) block) { is_free = true }
  unfolding removed start
  removed_block =
      remove_from_free_list-outside next block start ys zs start_list ok.away
      ∙ released_self h block pb room used

  removed_next :
      (next_at (mem removed) next ≡ next_at (mem h) next)
      × (size_at (mem removed) next ≡ size_at (mem h) next)
  unfolding removed start
  removed_next =
      let (list, e, rest) = remove_from_free_list-IsFreeList next start ys zs start_list in
      let o = released_other h block pb room used next next-Apart in
      (ap (λ r. r.next) e ∙ ap (λ r. r.next) o, ap (λ r. r.size) e ∙ ap (λ r. r.size) o)

  merged : Kheap
  merged = absorb block next removed

  coalesces : coalesce_next block start ≡ merged
  unfolding coalesce_next merged removed start
  coalesces =
      let e : next_at (mem start) block ≡ next =
        ap (λ r. r.next) (released_self h block pb room used) ∙ ok.at in
      let free = (All-right _ ys (next ∷ zs) start_list.free).0 in
      let ne : (next == 0) ≡ false =
        let p = (All-right IsPtr ys (next ∷ zs) ok.list.ptrs).0.0 in ground arith in
      rw (e, ne, free) refl

  merged_lem :
      IsFreeList (mem merged) merged.free_list_head (ys ++ zs)
      × (size_at (mem merged) block
          ≡ add64 (add64 (size_at (mem h) block) (size_at (mem h) next)) header_size)
      × (prev_at (mem merged) block ≡ prev_at (mem h) block)
  unfolding merged removed
  merged_lem =
      let list = (remove_from_free_list-IsFreeList next start ys zs start_list).0 in
      let n = removed_next.0 in
      let both : add64 (add64 (size_at (mem removed) block) (size_at (mem removed) next))
            header_size
          ≡ add64 (add64 (size_at (mem h) block) (size_at (mem h) next)) header_size =
        rw (ap (λ r. r.size) removed_block, removed_next.1) refl in
      let (kept, self) =
        absorb_lem removed block next (ys ++ zs) list next-Apart pb.1 (rw n ok.fits) (rw n ok.off)
          (All-without (Apart block) ys next zs ok.away) others-Apart (rw n ok.meets) in
      (kept, ap (λ r. r.size) self ∙ both, ap (λ r. r.prev) self ∙ ap (λ r. r.prev) removed_block)

  merged-IsBusy :
      (p : ℕ) → IsBusyBefore (mem h) block next (ys ++ next ∷ zs) p → IsBusy (mem merged) block p
  merged-IsBusy p (inl z) = inl z
  merged-IsBusy p (inr (f, a, l, n)) =
      let o : is_free_at (mem start) p ≡ is_free_at (mem h) p =
        unfold start in ap (λ r. r.is_free) (released_other h block pb room used p a) in
      let r : is_free_at (mem removed) p ≡ is_free_at (mem start) p =
        unfold removed in
        ap (λ r. r.is_free) (remove_from_free_list-outside next p start ys zs start_list l) in
      let e = removed_next.0 in
      let away = Apart-sym p next (All-right (Apart p) ys (next ∷ zs) l).0 in
      let kept =
        absorb-Linked removed block next p next-Apart pb.1 (rw e ok.fits) a away (rw e n) in
      inr (unfold merged in kept.2 ∙ r ∙ o ∙ f, a)

  -- Freeing the data of a block that is in use, where the block behind it in memory is in the free
  -- list and the block before it, if any, is in use: `kfree` takes the block behind out of the list
  -- and puts the block in front of the others, which keep their order; the list stays well-formed,
  -- and the block has the bytes of both and those of the header between them, modulo 2 ^ 64. The
  -- headers involved are apart.
  pub kfree_merges :
      IsBusyBefore (mem h) block next (ys ++ next ∷ zs) (prev_at (mem h) block)
      → IsFreeList
          (mem (kfree (block + header_size) h))
          (kfree (block + header_size) h).free_list_head
          (block ∷ (ys ++ zs))
        × (size_at (mem (kfree (block + header_size) h)) block
            ≡ add64 (add64 (size_at (mem h) block) (size_at (mem h) next)) header_size)
  kfree_merges before =
      let (list, size, prev) = merged_lem in
      let away = All-without (Apart block) ys next zs ok.away in
      let (front, kept) = added h block pb room used merged (ys ++ zs) list away in
      let same =
        kfree_from h block pb room used merged (unfold start in coalesces)
          (rw prev (merged-IsBusy _ before)) in
      (rw same front, rw same (kept ∙ size))
