-- ===== src/Frames/Alloc.antt =====
-- `alloc_frame` of src/memory/frame_alloc.c: it takes the lowest free frame.
use meringue_os.Prelude.{
  ℕ, zero, suc, ◌+◌, ◌/◌, ◌≤◌, ◌<◌, ◌≡◌, ◌⊎◌, ◌↔◌, refl, ap, true, false, ◌||◌, arith, ◌==◌,
  Bool-cases, inl, inr, ◌∙◌,
}
use meringue_os.Memory.{IsBytes, write, memset, memset_lem, memset-IsBytes, within}
use meringue_os.Frames.{
  Linker, Pmm, set_bit, test_bit, take_frame, alloc_loop, alloc_frame, frame_addr, page_size,
  total_frames,
}
use meringue_os.Frames.Bitmap.{
  test_bit-set_bit, set_bit-IsBytes, count_clear, count_clear-set, count_clear-le, count_clear_none,
}
use meringue_os.Frames.Marking.{is_used, IsCounted}
use meringue_os.Frames.Range.{overlaps}
use meringue_os.Frames.Init.{bitmap_bytes}

-- No free frame holds a byte of the bitmap.
abbrev pub IsSafe : Linker → Pmm → Type 0
IsSafe L s =
    (i : ℕ)
    → i < total_frames
    → is_used L s i ≡ false
    → overlaps L.bitmap_start bitmap_bytes i ≡ false

-- `s'` is `s` with frame `i` taken: its bit is set, its bytes are 0, and nothing else changed but
-- the count of free memory.
pub record Taken (L : Linker) (s : Pmm) (i : ℕ) (s' : Pmm) : Type 0 where
  pub used : (j : ℕ) → j < total_frames → is_used L s' j ≡ ((i == j) || is_used L s j)
  pub zeroed : (a : ℕ) → within (frame_addr i) page_size a ≡ true → s'.mem a ≡ 0
  pub kept :
      (a : ℕ)
      → within (frame_addr i) page_size a ≡ false
      → within L.bitmap_start bitmap_bytes a ≡ false
      → s'.mem a ≡ s.mem a
  pub less : s'.free_memory + page_size ≡ s.free_memory
  pub total : s'.total_memory ≡ s.total_memory
  pub highest : s'.highest_usable_address ≡ s.highest_usable_address

module _ (L : Linker) (s : Pmm) (c : IsCounted L s) (safe : IsSafe L s) where
  module _ (i : ℕ) (p : i < total_frames) (free : is_used L s i ≡ false) where
    -- Zeroing the frame leaves the bitmap alone.
    is_used-take_frame :
        (j : ℕ) → j < total_frames → is_used L (take_frame L i s) j ≡ ((i == j) || is_used L s j)
    unfolding take_frame test_bit
    is_used-take_frame j q =
        let set = test_bit-set_bit L.bitmap_start s.mem c.bytes i j in
        let apart = safe i p free in
        let kept : memset (set_bit L.bitmap_start s.mem i) (frame_addr i) 0 page_size
              (L.bitmap_start + j / 8)
            ≡ set_bit L.bitmap_start s.mem i (L.bitmap_start + j / 8) =
          memset_lem (set_bit L.bitmap_start s.mem i) (frame_addr i) 0 page_size
            (L.bitmap_start + j / 8)
          ∙ ground (arith, apart) in
        rw kept set

    take_frame-IsBytes : IsBytes (take_frame L i s).mem
    unfolding take_frame
    take_frame-IsBytes =
        memset-IsBytes _ (frame_addr i) 0 page_size (set_bit-IsBytes L.bitmap_start s.mem c.bytes i)

    count-take_frame :
        count_clear total_frames (is_used L s)
        ≡ suc (count_clear total_frames (is_used L (take_frame L i s)))
    count-take_frame = count_clear-set total_frames i _ _ p free is_used-take_frame

    take_frame_less : (take_frame L i s).free_memory + page_size ≡ s.free_memory
    unfolding take_frame
    take_frame_less =
        omega (arith, c.counted, count-take_frame, count_clear-le total_frames (is_used L s))

    take_frame-Taken : Taken L s i (take_frame L i s)
    take_frame-Taken = record {
      used = is_used-take_frame;
      zeroed = λ a w.
          unfold take_frame in
          ground (arith, memset_lem (set_bit L.bitmap_start s.mem i) (frame_addr i) 0 page_size a);
      kept = λ a w o.
          unfold take_frame set_bit write in
          ground (arith, memset_lem (set_bit L.bitmap_start s.mem i) (frame_addr i) 0 page_size a);
      less = take_frame_less;
      total = unfold take_frame in refl;
      highest = unfold take_frame in refl;
    }

    take_frame-IsCounted : IsCounted L (take_frame L i s)
    take_frame-IsCounted = record {
      bytes = take_frame-IsBytes;
      counted = omega (arith, take_frame_less, c.counted, count-take_frame);
    }

    take_frame-IsSafe : IsSafe L (take_frame L i s)
    take_frame-IsSafe j q = ground (arith, is_used-take_frame j q, safe j q)

  -- The search stops at the first free frame of its range, and fails where there is none.
  alloc_loop_cases :
      (n i : ℕ)
      → ((k : ℕ) × (i ≤ k)
          × (k < i + n)
          × (is_used L s k ≡ false)
          × ((j : ℕ) → i ≤ j → j < k → is_used L s j ≡ true)
          × (alloc_loop L n i s ≡ (take_frame L k s, frame_addr k)))
        ⊎ (((j : ℕ) → i ≤ j → j < i + n → is_used L s j ≡ true) × (alloc_loop L n i s ≡ (s, 0)))
  unfolding alloc_loop
  alloc_loop_cases zero i = inr (λ j p q. absurd (omega arith), refl)
  alloc_loop_cases (suc n) i = elim (Bool-cases (is_used L s i)) [
    | inl used ↦ elim (alloc_loop_cases n (i + 1)) [
      | inl (k, lo, hi, free, below, e) ↦
          inl (k, omega arith, omega arith, free, extend used below, rw (used, e))
      | inr (all, e) ↦
          inr (λ j p q. extend used (λ j p r. all j p (omega arith)) j p q, rw (used, e))
    ]
    | inr free ↦ inl (i, omega arith, omega arith, free, λ j p q. absurd (omega arith), rw free)
  ]
    where
      extend :
          {i k : ℕ}
          → is_used L s i ≡ true
          → ((j : ℕ) → i + 1 ≤ j → j < k → is_used L s j ≡ true)
          → (j : ℕ) → i ≤ j
          → j < k
          → is_used L s j ≡ true
      extend {i} used rest j p q = elim (Bool-cases (i == j)) [
        | inl e ↦ let e' : i ≡ j = ground arith in rw (← e') used
        | inr e ↦ rest j (ground arith) q
      ]

  -- Where `free_memory` counts the free frames and none of them holds a byte of the bitmap:
  -- `alloc_frame` takes the lowest free frame, zeroes it, subtracts a page from `free_memory` and
  -- returns the address, and keeps all else but bytes of the bitmap; only where every frame is used
  -- does it return NULL, and then it changes nothing.
  pub alloc_frame_cases :
      ((k : ℕ) × (k < total_frames)
        × (is_used L s k ≡ false)
        × ((j : ℕ) → j < k → is_used L s j ≡ true)
        × ((alloc_frame L s).1 ≡ frame_addr k)
        × Taken L s k (alloc_frame L s).0)
      ⊎ (((j : ℕ) → j < total_frames → is_used L s j ≡ true) × (alloc_frame L s ≡ (s, 0)))
  unfolding alloc_frame
  alloc_frame_cases = elim (alloc_loop_cases total_frames 0) [
    | inl (k, lo, hi, free, below, e) ↦
        let p : k < total_frames = omega arith in
        inl (
          k,
          p,
          free,
          (λ j q. below j (omega arith) q),
          ap (λ r. r.1) e,
          rw e (take_frame-Taken k p free),
        )
    | inr (all, e) ↦ inr ((λ j q. all j (omega arith) (omega arith)), e)
  ]

  pub alloc_frame_sound : IsCounted L (alloc_frame L s).0 × IsSafe L (alloc_frame L s).0
  unfolding alloc_frame
  alloc_frame_sound = elim (alloc_loop_cases total_frames 0) [
    | inl (k, lo, hi, free, below, e) ↦
        let p : k < total_frames = omega arith in
        rw e (take_frame-IsCounted k p free, take_frame-IsSafe k p free)
    | inr (all, e) ↦ rw e (c, safe)
  ]

  -- Where `free_memory` counts the free frames and none of them holds a byte of the bitmap:
  -- `alloc_frame` fails exactly when `free_memory` is 0.
  pub alloc_frame-null : ((alloc_frame L s).1 ≡ 0) ↔ (s.free_memory ≡ 0)
  alloc_frame-null = elim alloc_frame_cases [
    | inl (k, p, free, below, e, t) ↦
        (λ z. absurd (omega arith), λ z. absurd (omega (arith, t.less)))
    | inr (all, e) ↦ (
      λ z. omega (arith, c.counted, count_clear_none total_frames (is_used L s) all),
      λ z. ap (λ r. r.1) e,
    )
  ]
