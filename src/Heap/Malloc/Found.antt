-- ===== src/Heap/Malloc/Found.antt =====
-- `kmalloc` of src/memory/kheap.c from the search on, where the free list has a block that fits.
use meringue_os.Prelude.{
  ℕ, ◌+◌, ◌-◌, ◌%◌, ◌<◌, ◌≤◌, ◌≡◌, ◌≢◌, refl, ap, sym, ◌∙◌, false, some, List, ◌∷◌, ◌++◌, length,
  All, All-mono, All-right, arith, leb, ◌==◌, if◌then◌else◌, Bool-cases, inl, inr, word_mod, add64,
}
use mathlib.Core.Path.{subst}
use meringue_os.Frames.{Linker, max_address}
use meringue_os.Heap.{
  Kheap, mem, remove_from_free_list, split, min_block_size, align, allocate, find_block, kmalloc,
}
use meringue_os.Heap.Header.{header_size, size_at, next_at}
use meringue_os.Heap.Fields.{Apart}
use meringue_os.Heap.Links.Rest.{Meets}
use meringue_os.Heap.Segments.{IsPtr, IsFreeList}
use meringue_os.Heap.FreeList.Remove.{remove_from_free_list-IsFreeList}
use meringue_os.Heap.Search.{first_fit-fitting, fitting_split}
use meringue_os.Heap.Malloc.{
  Clear, Clear-Apart, Clear-less, Allocated, marked, finish, finish-Allocated,
}
use meringue_os.Heap.Malloc.Split.{split_list}

-- The free list holds `ys`, the block and `zs`; the block is the first that has `size` bytes. It ends
-- within the managed RAM and no other free header lies in it, and the block after it in memory is
-- none of the free ones or has the header of one.
pub record IsFound (h : Kheap) (block size : ℕ) (ys zs : List ℕ) : Type 0 where
  pub list : IsFreeList (mem h) h.free_list_head (ys ++ block ∷ zs)
  pub smaller : All (λ y. size_at (mem h) y < size) ys
  pub large : size ≤ size_at (mem h) block
  pub bound : block + header_size + size_at (mem h) block ≤ max_address
  pub clear : All (Clear (size_at (mem h) block) block) (ys ++ zs)
  pub next_fits : next_at (mem h) block < word_mod
  pub next_meets : All (λ q. next_at (mem h) block ≢ 0 → Meets (next_at (mem h) block) q) (ys ++ zs)

-- The free list after `size` bytes were taken of a block that has `n`: what is left of the block is
-- in front, if that is enough for a block.
abbrev pub left_list : ℕ → ℕ → ℕ → List ℕ → List ℕ
left_list block size n xs =
    if leb (size + min_block_size) n then (block + header_size + size) ∷ xs else xs

module _ (h : Kheap) (block size : ℕ) (ys zs : List ℕ) (found : IsFound h block size ys zs) where
  taken : Kheap
  taken = remove_from_free_list block h

  taken_lem :
      IsFreeList (mem taken) taken.free_list_head (ys ++ zs)
      × (size_at (mem taken) block ≡ size_at (mem h) block)
      × (next_at (mem taken) block ≡ next_at (mem h) block)
  unfolding taken
  taken_lem =
      let (list, e, rest) = remove_from_free_list-IsFreeList block h ys zs found.list in
      (list, ap (λ r. r.size) e, ap (λ r. r.next) e)

  whole-Clear : All (Clear (size_at (mem taken) block) block) (ys ++ zs)
  whole-Clear = subst (λ n. All (Clear n block) (ys ++ zs)) (sym taken_lem.1) found.clear

  behind_Apart :
      (q : ℕ)
      → size + min_block_size ≤ size_at (mem h) block
      → Clear (size_at (mem h) block) block q
      → Apart (block + header_size + size) q
  behind_Apart q more (inl c) = inl (omega arith)
  behind_Apart q more (inr c) = inr (omega arith)

  cut_lem :
      size + min_block_size ≤ size_at (mem h) block
      → IsFreeList
          (mem (split block size taken))
          (split block size taken).free_list_head
          ((block + header_size + size) ∷ (ys ++ zs))
        × (size_at (mem (split block size taken)) block ≡ size)
  cut_lem more =
      let (list, e, next) = taken_lem in
      split_list taken block size (ys ++ zs) (omega (arith, found.bound))
        (omega (arith, next, found.next_fits)) list
        (All-mono _ _ (ys ++ zs) (λ q c. behind_Apart q more c) found.clear)
        (All-mono _ _ (ys ++ zs) (λ q c. Clear-Apart _ block q c) found.clear)
        (subst (λ n. All (λ q. n ≢ 0 → Meets n q) (ys ++ zs)) (sym next) found.next_meets)

  allocate-finish : allocate block size h ≡ (
    finish
        (if leb (add64 size min_block_size) (size_at (mem taken) block)
          then split block size taken
          else taken)
        block,
    block + header_size,
  )
  unfolding allocate finish marked taken
  allocate-finish = refl

  -- The block is taken out of the list, a rest that is large enough goes back in front, and the
  -- bytes of the block become 0.
  allocate-Allocated :
      Allocated
        (allocate block size h).0
        block
        size
        (left_list block size (size_at (mem h) block) (ys ++ zs))
      × ((allocate block size h).1 ≡ block + header_size)
  allocate-Allocated =
      let (list, e, next) = taken_lem in
      let sum : add64 size min_block_size ≡ size + min_block_size =
        omega (arith, found.large, found.bound) in
      elim (Bool-cases (leb (size + min_block_size) (size_at (mem h) block))) [
        | inl more ↦
            let (cut, fits) = cut_lem (ground arith) in
            let clear : All (Clear size block) (ys ++ zs) =
              All-mono _ _ (ys ++ zs) (λ q c. Clear-less _ size block q found.large c)
                found.clear in
            let clears =
              subst (λ n. All (Clear n block) ((block + header_size + size) ∷ (ys ++ zs)))
                (sym fits) (inl (omega arith), clear) in
            rw (allocate-finish, sum, e, more)
              (
                finish-Allocated (split block size taken) block size _ cut (omega (arith, fits))
                    clears,
                refl,
              )
        | inr whole ↦
            rw (allocate-finish, sum, e, whole)
              (
                finish-Allocated taken block size (ys ++ zs) list (omega (arith, e, found.large))
                    whole-Clear,
                refl,
              )
      ]

  found_at :
      (L : Linker) (fuel : ℕ)
      → length (ys ++ block ∷ zs) < fuel
      → find_block L fuel size h ≡ some (allocate block size h)
  unfolding find_block
  found_at L fuel enough =
      let at =
        first_fit-fitting fuel (mem h) size h.free_list_head (ys ++ block ∷ zs) found.list enough
        ∙ ap some (fitting_split (mem h) size block ys zs found.smaller found.large) in
      let ne : (block == 0) ≡ false =
        let p = (All-right IsPtr ys (block ∷ zs) found.list.ptrs).0.0 in ground arith in
      rw (find_block, at, ne) refl

-- A size up to 2 ^ 64 - 8 is rounded up to the least multiple of 8 that is not below it.
pub align_lem :
    (size : ℕ)
    → size ≤ word_mod - 8
    → (size ≤ align size) × (align size < size + 8) × (align size % 8 ≡ 0)
unfolding align
align_lem size fits = (omega arith, omega arith, omega arith)

-- Where the free list is well-formed and has a block that is large enough for the size, which is
-- not 0, rounded up to a multiple of 8, with fuel above the length of the list, `kmalloc` takes
-- the first such block and returns the address behind its header: the block is not free any more,
-- has at least that size, and all its bytes are 0. The free list stays well-formed and keeps its
-- other blocks in their order; what is left of the block is put in front of them, if it is enough
-- for a header and as many bytes again. The block ends within the managed RAM and no other free
-- header lies in it, and the block after it is apart from the free ones or one of them.
pub kmalloc-Allocated :
    (h : Kheap) (block size : ℕ) (ys zs : List ℕ)
    → 0 < size
    → IsFound h block (align size) ys zs
    → (L : Linker) (fuel : ℕ) → length (ys ++ block ∷ zs) < fuel
    → (h' : Kheap) × (kmalloc L fuel size h ≡ some (h', block + header_size))
      × Allocated h' block
          (align size)
          (left_list block (align size) (size_at (mem h) block) (ys ++ zs))
unfolding kmalloc
kmalloc-Allocated h block size ys zs pos found L fuel enough =
    let (done, at) = allocate-Allocated h block (align size) ys zs found in
    let z : (size == 0) ≡ false = ground arith in
    (
      (allocate block (align size) h).0,
      rw (z, found_at h block (align size) ys zs found L fuel enough)
          (ap (λ a. some ((allocate block (align size) h).0, a)) at),
      done,
    )
