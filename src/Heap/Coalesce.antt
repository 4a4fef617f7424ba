-- ===== src/Heap/Coalesce.antt =====
-- `coalesce` of src/memory/kheap.c: a block takes over the block behind it.
use meringue_os.Prelude.{
  ℕ, ◌<◌, ◌≡◌, ◌≢◌, ap, ◌∙◌, not, List, All, All-zip, All-both, arith, ◌==◌, if◌then◌else◌,
  Bool-cases, inl, inr, word_mod, add64,
}
use meringue_os.Memory.{Mem, memset}
use meringue_os.Heap.{Kheap, mem, absorb}
use meringue_os.Heap.Header.{header_size, size_at, next_at, set_size, set_next, set_prev}
use meringue_os.Heap.Fields.{
  header, Apart, memset_apart, set_size_apart, set_next_apart, set_prev_apart, set_size_self,
  set_next_self,
}
use meringue_os.Heap.Links.{Apart-sym}
use meringue_os.Heap.Links.Rest.{Meets}
use meringue_os.Heap.Segments.{IsFreeList}
use meringue_os.Heap.Malloc.{
  Linked, Linked-header, Linked-trans, set_prev-Linked, IsFreeList-Linked,
}

module _ (m : Mem) (low high : ℕ) (apart : Apart low high) where
  total : ℕ
  total = add64 (add64 (size_at m low) (size_at m high)) header_size

  -- The header of the lower block, with the size of both and the `next` of the upper one.
  grown : Mem
  grown = let t = set_size m low total in set_next t low (next_at t high)

  joined : Mem
  joined = if not (next_at grown low == 0) then set_prev grown (next_at grown low) low else grown

  wiped : Mem
  wiped = memset joined high 0 header_size

  module _ (fits : next_at m high < word_mod) where
    grown_self : header grown low ≡ record (header m low) { size = total; next = next_at m high }
    unfolding grown total
    grown_self =
        let t = set_size m low total in
        let e : next_at t high ≡ next_at m high =
          ap (λ r. r.next) (set_size_apart m low high apart total) in
        cc (
          set_size_self m low total (omega arith),
          set_next_self t low (next_at t high) (omega (arith, e)),
          e,
        )

    grown_other : (q : ℕ) → Apart low q → header grown q ≡ header m q
    unfolding grown
    grown_other q a = set_next_apart _ low q a _ ∙ set_size_apart m low q a total

    grown_next : next_at grown low ≡ next_at m high
    grown_next = ap (λ r. r.next) grown_self

    joined_self :
        (next_at m high ≢ 0 → Apart (next_at m high) low)
        → header joined low ≡ record (header m low) { size = total; next = next_at m high }
    unfolding joined
    joined_self off = elim (Bool-cases (next_at grown low == 0)) [
      | inl z ↦ rw z grown_self
      | inr n ↦
          let ne : next_at m high ≢ 0 = ground (arith, grown_next) in
          rw n
            (set_prev_apart grown (next_at grown low) low (rw grown_next (off ne)) low ∙ grown_self)
    ]

    joined-Linked :
        (q : ℕ)
        → low < word_mod
        → Apart low q
        → (next_at m high ≢ 0 → Meets (next_at m high) q)
        → Linked m joined q
    unfolding joined
    joined-Linked q lf a meets = elim (Bool-cases (next_at grown low == 0)) [
      | inl z ↦ rw z (Linked-header m grown q (grown_other q a))
      | inr n ↦
          let ne : next_at m high ≢ 0 = ground (arith, grown_next) in
          rw n (
            Linked-trans m grown _ q (Linked-header m grown q (grown_other q a))
              (set_prev-Linked grown (next_at grown low) q low lf (rw grown_next (meets ne))))
    ]

    wiped_self :
        (next_at m high ≢ 0 → Apart (next_at m high) low)
        → header wiped low ≡ record (header m low) { size = total; next = next_at m high }
    unfolding wiped
    wiped_self off =
        memset_apart joined high 0 header_size low (Apart-sym low high apart) ∙ joined_self off

    wiped-Linked :
        (q : ℕ)
        → low < word_mod
        → Apart low q
        → Apart high q
        → (next_at m high ≢ 0 → Meets (next_at m high) q)
        → Linked m wiped q
    unfolding wiped
    wiped-Linked q lf a b meets =
        Linked-trans m joined _ q (joined-Linked q lf a meets)
          (Linked-header joined _ q (memset_apart joined high 0 header_size q b))

-- `absorb` of a block that is out of the list keeps the list; the lower block has the bytes of both
-- and of the header between them.
pub absorb_lem :
    (h : Kheap) (low high : ℕ) (xs : List ℕ)
    → IsFreeList (mem h) h.free_list_head xs
    → Apart low high
    → low < word_mod
    → next_at (mem h) high < word_mod
    → (next_at (mem h) high ≢ 0 → Apart (next_at (mem h) high) low)
    → All (Apart low) xs
    → All (Apart high) xs
    → All (λ q. next_at (mem h) high ≢ 0 → Meets (next_at (mem h) high) q) xs
    → IsFreeList (mem (absorb low high h)) (absorb low high h).free_list_head xs
      × (header (mem (absorb low high h)) low ≡ record (header (mem h) low) {
        size = add64 (add64 (size_at (mem h) low) (size_at (mem h) high)) header_size;
        next = next_at (mem h) high;
      })
unfolding absorb wiped joined grown total
absorb_lem h low high xs f apart lf fits off al ah meets =
    let m = mem h in
    (
      IsFreeList-Linked m (wiped m low high apart) h.free_list_head xs f (
          All-zip _ _ _ xs (λ q a n. wiped-Linked m low high apart fits q lf a.0 a.1 n)
            (All-both _ _ xs al ah) meets),
      wiped_self m low high apart fits off,
    )

-- The links and the flag of any other header stay.
pub absorb-Linked :
    (h : Kheap) (low high q : ℕ)
    → Apart low high
    → low < word_mod
    → next_at (mem h) high < word_mod
    → Apart low q
    → Apart high q
    → (next_at (mem h) high ≢ 0 → Meets (next_at (mem h) high) q)
    → Linked (mem h) (mem (absorb low high h)) q
unfolding absorb wiped joined grown total
absorb-Linked h low high q apart lf fits a b meets =
    wiped-Linked (mem h) low high apart fits q lf a b meets
