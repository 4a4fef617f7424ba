-- ===== src/Heap/Malloc/Split/Rest.antt =====
-- The headers after a block is split in `kmalloc` of src/memory/kheap.c: the block's own, that of what
-- is left of it, and that of the block after them.
use meringue_os.Prelude.{
  ℕ, ◌+◌, ◌-◌, ◌≤◌, ◌<◌, ◌≡◌, ◌≢◌, ◌⊎◌, refl, ap, sym, ◌∙◌, true, false, List, [], ◌∷◌, All, arith,
  ◌==◌, if◌then◌else◌, inl, inr, word_mod, sub64,
}
use meringue_os.Memory.{Mem}
use meringue_os.Heap.{Kheap, mem, split, add_to_free_list}
use meringue_os.Heap.Header.{
  header_size, size_at, next_at, prev_at, set_size, set_is_free, set_next,
}
use meringue_os.Heap.Fields.{
  Header, header, Apart, set_size_apart, set_is_free_apart, set_next_apart, set_prev_apart,
  set_size_self, set_is_free_self, set_next_self, set_prev_self,
}
use meringue_os.Heap.Links.{Aside, Apart-sym, link_free_self}
use meringue_os.Heap.Links.Rest.{Meets, link_free-Rest}
use meringue_os.Heap.Segments.{IsFreeList}
use meringue_os.Heap.Malloc.{head-Meets}
use meringue_os.Heap.Malloc.Split.{
  behind, fresh, backed, cut, block-Apart, behind_fits, fresh_other, fresh_next, cut_heap,
  split_cut,
}

-- The headers that `split` writes, where the block after this one, if there is any, lies apart.
module _ (m : Mem) (block size : ℕ) (large : size + header_size ≤ size_at m block)
    (bound : block + header_size + size_at m block < word_mod)
    (fits : next_at m block < word_mod) where
  rest_bound : block + header_size + size < word_mod
  rest_bound = omega (arith, large, bound)

  rest_fits : behind m block size < word_mod
  rest_fits = behind_fits m block size rest_bound

  beside : Apart block (behind m block size)
  beside = block-Apart m block size rest_bound

  old_next : next_at (fresh m block size) (behind m block size) ≡ next_at m block
  old_next = fresh_next m block size rest_bound fits

  -- The header of what is left.
  new_header : Header
  new_header = record (header m (behind m block size)) {
    size = size_at m block - size - header_size;
    is_free = true;
    next = next_at m block;
    prev = block;
  }

  fresh_self : header (fresh m block size) (behind m block size) ≡ new_header
  unfolding fresh new_header
  fresh_self =
      let rest = behind m block size in
      let n = size_at m block - size - header_size in
      let less : sub64 (sub64 (size_at m block) size) header_size ≡ n =
        omega (arith, large, bound) in
      let t = set_size m rest n in
      let u = set_is_free t rest true in
      let v = set_next u rest (next_at m block) in
      let away = Apart-sym block rest beside in
      let e : next_at u block ≡ next_at m block =
        ap (λ r. r.next)
          (set_is_free_apart t rest block away true ∙ set_size_apart m rest block away n) in
      rw (less, e)
        (cc (
          set_size_self m rest n (omega (arith, bound)),
          set_is_free_self t rest true,
          set_next_self u rest (next_at m block) fits,
          set_prev_self v rest block (omega (arith, bound)),
        ))

  backed_other :
      (q : ℕ)
      → Aside (next_at m block) q
      → header (backed m block size) q ≡ header (fresh m block size) q
  unfolding backed
  backed_other q (inl z) = let e = old_next ∙ z in rw e refl
  backed_other q (inr (ne, apart)) =
      let n : (next_at m block == 0) ≡ false = ground arith in
      rw (old_next, n) (set_prev_apart (fresh m block size) (next_at m block) q apart _)

  cut_other : (q : ℕ) → Apart block q → header (cut m block size) q ≡ header (backed m block size) q
  unfolding cut
  cut_other q a = set_next_apart _ block q a _ ∙ set_size_apart _ block q a size

  cut_rest :
      Aside (next_at m block) (behind m block size)
      → header (cut m block size) (behind m block size) ≡ new_header
  cut_rest aside =
      cut_other (behind m block size) beside ∙ backed_other (behind m block size) aside ∙ fresh_self

  cut_self :
      Aside (next_at m block) block
      → header (cut m block size) block
        ≡ record (header m block) { size = size; next = behind m block size }
  unfolding cut
  cut_self aside =
      let k = backed m block size in
      cc (
        set_next_self (set_size k block size) block (behind m block size) rest_fits,
        set_size_self k block size (omega (arith, bound, large)),
        backed_other block aside,
        fresh_other m block size rest_bound block (Apart-sym block (behind m block size) beside),
      )

  cut_next :
      next_at m block ≢ 0
      → Apart block (next_at m block)
      → prev_at (cut m block size) (next_at m block) ≡ behind m block size
  unfolding backed
  cut_next ne apart =
      let n : (next_at m block == 0) ≡ false = ground arith in
      ap (λ r. r.prev) (cut_other (next_at m block) apart)
      ∙ rw (old_next, n)
          (ap (λ r. r.prev)
            (set_prev_self (fresh m block size) (next_at m block) (behind m block size) rest_fits))

-- The head of a free list that lies apart from the header at `q`.
head-Aside :
    (m : Mem) (head q : ℕ) (xs : List ℕ) → IsFreeList m head xs → All (Apart q) xs → Aside head q
head-Aside m head q [] f a = inl (f.chain)
head-Aside m head q (x ∷ xs) f a =
    let e : head ≡ x = f.chain.0 in rw e (inr (f.ptrs.0.0, Apart-sym q x a.0))

-- A head that meets the header at `q`, if it is a block of the list.
head_of-Meets :
    (m : Mem) (head q : ℕ) (xs : List ℕ)
    → IsFreeList m head xs
    → All (Meets q) xs
    → head ≢ 0
    → Meets head q
head_of-Meets m head q [] f a ne = absurd (ne f.chain)
head_of-Meets m head q (x ∷ xs) f (inl e, a) ne = inl (f.chain.0 ∙ sym e)
head_of-Meets m head q (x ∷ xs) f (inr apart, a) ne =
    let e : head ≡ x = f.chain.0 in rw e (inr (Apart-sym q x apart))

-- The state `h'` after the block at `block` of `h` was cut to `size` bytes: what is left behind them
-- is a block of its own, which has a header's bytes less, between the block and the one after it.
pub record IsSplit (h h' : Kheap) (block size : ℕ) : Type 0 where
  pub left :
      size_at (mem h') (block + header_size + size) ≡ size_at (mem h) block - size - header_size
  pub left_next : next_at (mem h') (block + header_size + size) ≡ next_at (mem h) block
  pub left_prev : prev_at (mem h') (block + header_size + size) ≡ block
  pub kept : size_at (mem h') block ≡ size
  pub kept_next : next_at (mem h') block ≡ block + header_size + size
  pub kept_prev : prev_at (mem h') block ≡ prev_at (mem h) block
  pub back :
      (next_at (mem h) block ≡ 0)
      ⊎ (prev_at (mem h') (next_at (mem h) block) ≡ block + header_size + size)
  pub end :
      h'.heap_end ≡ (if next_at (mem h) block == 0 then block + header_size + size else h.heap_end)

-- `split` of a block whose bytes are enough for `size` and a header: the block has `size` bytes, the new
-- block behind it has the others less those of its header, and the order of the blocks in memory is
-- the block, the new one, and the one that came after, with the links both ways; the new block is
-- the end of the heap, if no other came after. The free list is well-formed and has neither block,
-- and the block that came after is apart from the two, and one of the free ones or apart from them.
pub split_lem :
    (h : Kheap) (block size : ℕ) (xs : List ℕ)
    → size + header_size ≤ size_at (mem h) block
    → block + header_size + size_at (mem h) block < word_mod
    → next_at (mem h) block < word_mod
    → IsFreeList (mem h) h.free_list_head xs
    → All (Apart (block + header_size + size)) xs
    → All (Apart block) xs
    → All (Meets (next_at (mem h) block)) xs
    → Aside (next_at (mem h) block) (block + header_size + size)
    → Aside (next_at (mem h) block) block
    → IsSplit h (split block size h) block size
unfolding behind cut_heap add_to_free_list size_at new_header
split_lem h block size xs large bound fits f away clear meets far aside =
    let m = mem h in
    let k = cut m block size in
    let rest = block + header_size + size in
    let head = h.free_list_head in
    let (low_meet, low) = head-Meets m head block xs f clear in
    let high = rest_fits m block size large bound fits in
    let here = link_free_self k head rest low high (head-Aside m head rest xs f away) in
    let one = cut_rest m block size large bound fits far in
    let two = cut_self m block size large bound fits aside in
    let at_block =
      link_free-Rest k head rest block low high (Apart-sym block rest (inl (omega arith)))
        low_meet in
    rw split_cut (record {
      left = ap (λ r. r.size) here ∙ ap (λ r. r.size) one;
      left_next = ap (λ r. r.next) here ∙ ap (λ r. r.next) one;
      left_prev = ap (λ r. r.prev) here ∙ ap (λ r. r.prev) one;
      kept = at_block.0 ∙ ap (λ r. r.size) two;
      kept_next = at_block.1 ∙ ap (λ r. r.next) two;
      kept_prev = at_block.2 ∙ ap (λ r. r.prev) two;
      back = elim far [
        | inl z ↦ inl z
        | inr (ne, apart) ↦ elim aside [
          | inl z ↦ inl z
          | inr (ne', apart') ↦
              let at_next =
                link_free-Rest k head rest (next_at m block) low high
                  (Apart-sym (next_at m block) rest apart)
                  (head_of-Meets m head (next_at m block) xs f meets) in
              inr (
                at_next.2
                ∙ cut_next m block size large bound fits ne
                    (Apart-sym (next_at m block) block apart'))
        ]
      ];
      end = rw (old_next m block size large bound fits) refl;
    })
