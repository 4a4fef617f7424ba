-- ===== src/Frames/Free.antt =====
-- `free_frame` of src/memory/frame_alloc.c, and `free_frame` after `alloc_frame`.
use meringue_os.Prelude.{
  ℕ, suc, ◌+◌, ◌-◌, ◌/◌, ◌<◌, ◌≡◌, ◌≢◌, ◌⊎◌, refl, sym, ap, Bool, true, false, ◌&&◌, ◌||◌, not,
  arith, ltb, ◌==◌, Bool-cases, inl, inr, ◌∙◌, add64,
}
use mathlib.Core.Path.{subst}
use meringue_os.Memory.{write, within}
use meringue_os.Frames.{
  Linker, Pmm, clear_bit, alloc_frame, free_frame, frame_addr, page_size, ram_base, total_frames,
}
use meringue_os.Frames.Bitmap.{
  test_bit-clear_bit, clear_bit-IsBytes, count_clear, count_clear-set, count_clear-le,
}
use meringue_os.Frames.Marking.{is_used, IsCounted}
use meringue_os.Frames.Init.{bitmap_bytes}
use meringue_os.Frames.Alloc.{IsSafe, alloc_frame_cases, alloc_frame_sound}

-- `s'` is `s` with frame `i` given back.
pub record Given (L : Linker) (s : Pmm) (i : ℕ) (s' : Pmm) : Type 0 where
  pub used : (j : ℕ) → is_used L s' j ≡ (not (i == j) && is_used L s j)
  pub kept : (a : ℕ) → within L.bitmap_start bitmap_bytes a ≡ false → s'.mem a ≡ s.mem a
  pub more : s'.free_memory ≡ s.free_memory + page_size
  pub total : s'.total_memory ≡ s.total_memory
  pub highest : s'.highest_usable_address ≡ s.highest_usable_address

module _ (L : Linker) (s : Pmm) (c : IsCounted L s) where
  -- Freeing a used frame: what all the tests before the write amount to.
  give_frame :
      (i : ℕ)
      → i < total_frames
      → is_used L s i ≡ true
      → free_frame L (frame_addr i) s ≡ record s {
        mem = clear_bit L.bitmap_start s.mem i;
        free_memory = add64 s.free_memory page_size;
      }
  unfolding free_frame
  give_frame i p used =
      let index : (frame_addr i - ram_base) / page_size ≡ i = omega arith in
      rw (index, used) (ground arith)

  module _ (i : ℕ) (p : i < total_frames) (used : is_used L s i ≡ true) where
    is_used-free_frame :
        (j : ℕ) → is_used L (free_frame L (frame_addr i) s) j ≡ (not (i == j) && is_used L s j)
    is_used-free_frame j =
        rw (give_frame i p used) (test_bit-clear_bit L.bitmap_start s.mem c.bytes i j)

    count-free_frame :
        count_clear total_frames (is_used L (free_frame L (frame_addr i) s))
        ≡ suc (count_clear total_frames (is_used L s))
    count-free_frame =
        count_clear-set total_frames i _ (is_used L s) p (is_used-free_frame i ∙ ground arith)
          (λ j _. restored j)
      where
        restored :
            (j : ℕ) → is_used L s j ≡ ((i == j) || is_used L (free_frame L (frame_addr i) s) j)
        restored j = elim (Bool-cases (i == j)) [
          | inl e ↦ let e' : i ≡ j = ground arith in rw (e, ← e') used
          | inr e ↦ rw (e, is_used-free_frame j, e) refl
        ]

    free_frame_more : (free_frame L (frame_addr i) s).free_memory ≡ s.free_memory + page_size
    free_frame_more = rw (give_frame i p used) (
        omega (
          arith,
          c.counted,
          count-free_frame,
          count_clear-le total_frames (is_used L (free_frame L (frame_addr i) s)),
        ))

    -- Freeing a used frame clears its bit, counts its bytes as free, and changes nothing else.
    pub free_frame-Given : Given L s i (free_frame L (frame_addr i) s)
    free_frame-Given = record {
      used = is_used-free_frame;
      kept = λ a o. rw (give_frame i p used) (unfold clear_bit write in ground arith);
      more = free_frame_more;
      total = rw (give_frame i p used);
      highest = rw (give_frame i p used);
    }

    pub free_frame-IsCounted : IsCounted L (free_frame L (frame_addr i) s)
    free_frame-IsCounted = record {
      bytes = rw (give_frame i p used) (clear_bit-IsBytes L.bitmap_start s.mem c.bytes i);
      counted = omega (arith, free_frame_more, c.counted, count-free_frame);
    }

module _ (L : Linker) (s : Pmm) (addr : ℕ) where
  refused :
      ((i : ℕ) → i < total_frames → addr ≡ frame_addr i → is_used L s i ≡ false)
      → free_frame L addr s ≡ s
  unfolding free_frame
  refused h = ground (arith, h ((addr - ram_base) / page_size))

  -- Whether `addr` is the address of frame `(addr - ram_base) / page_size`, and that frame is used.
  is_freeable : Bool
  is_freeable =
      (addr == frame_addr ((addr - ram_base) / page_size))
      && ltb ((addr - ram_base) / page_size) total_frames
      && is_used L s ((addr - ram_base) / page_size)

  -- Where `free_memory` counts the free frames: `free_frame` gives back the managed frame whose
  -- address it is passed, if that frame is used, and `free_memory` counts again. Any other address
  -- is refused and changes nothing: NULL, one out of range or not aligned, and that of a frame that
  -- is free already.
  pub free_frame_cases :
      IsCounted L s
      → ((i : ℕ) × (i < total_frames)
          × (addr ≡ frame_addr i)
          × (is_used L s i ≡ true)
          × Given L s i (free_frame L addr s)
          × IsCounted L (free_frame L addr s))
        ⊎ (((i : ℕ) → i < total_frames → addr ≡ frame_addr i → is_used L s i ≡ false)
            × (free_frame L addr s ≡ s))
  unfolding is_freeable
  free_frame_cases c = elim (Bool-cases is_freeable) [
    | inl ok ↦
        let i = (addr - ram_base) / page_size in
        let p : i < total_frames = ground arith in
        let at : addr ≡ frame_addr i = ground arith in
        let used : is_used L s i ≡ true = ground arith in
        inl (
          i,
          p,
          at,
          used,
          subst (λ a. Given L s i (free_frame L a s)) (sym at) (free_frame-Given L s c i p used),
          subst (λ a. IsCounted L (free_frame L a s)) (sym at)
              (free_frame-IsCounted L s c i p used),
        )
    | inr bad ↦
        let none_used : (i : ℕ) → i < total_frames → addr ≡ frame_addr i → is_used L s i ≡ false =
          λ i p at. unused bad i p at in
        inr (none_used, refused none_used)
  ]
    where
      unused :
          is_freeable ≡ false
          → (i : ℕ) → i < total_frames
          → addr ≡ frame_addr i
          → is_used L s i ≡ false
      unused bad i p at =
          let index : (addr - ram_base) / page_size ≡ i = omega arith in
          let rest : (addr == frame_addr i) && ltb i total_frames && is_used L s i ≡ false =
            rw index at bad in
          ground arith

-- Clearing a bit that was clear before it was set restores the bits.
clear_of_set :
    (i j : ℕ) (f : ℕ → Bool) {b : Bool}
    → f i ≡ false
    → b ≡ ((i == j) || f j)
    → (not (i == j) && b) ≡ f j
clear_of_set i j f free e = elim (Bool-cases (i == j)) [
  | inl same ↦ let e' : i ≡ j = ground arith in rw (same, ← e', free) refl
  | inr off ↦ rw (off, e, off) refl
]

-- Where `free_memory` counts the free frames and none of them holds a byte of the bitmap: after
-- `alloc_frame` has returned a frame and `free_frame` has given it back, the same frames are used as
-- before, and `free_memory` and `total_memory` are as before.
pub free_frame-alloc_frame :
    (L : Linker) (s : Pmm)
    → IsCounted L s
    → IsSafe L s
    → (alloc_frame L s).1 ≢ 0
    → ((j : ℕ)
        → j < total_frames
        → is_used L (free_frame L (alloc_frame L s).1 (alloc_frame L s).0) j ≡ is_used L s j)
      × ((free_frame L (alloc_frame L s).1 (alloc_frame L s).0).free_memory ≡ s.free_memory)
      × ((free_frame L (alloc_frame L s).1 (alloc_frame L s).0).total_memory ≡ s.total_memory)
free_frame-alloc_frame L s c safe got = elim (alloc_frame_cases L s c safe) [
  | inr (all, e) ↦ absurd (got (ap (λ r. r.1) e))
  | inl (k, p, free, below, e, t) ↦
      let used : is_used L (alloc_frame L s).0 k ≡ true = t.used k p ∙ ground arith in
      let g = free_frame-Given L (alloc_frame L s).0 (alloc_frame_sound L s c safe).0 k p used in
      rw e (
        λ j q. g.used j ∙ clear_of_set k j (is_used L s) free (t.used j q),
        g.more ∙ t.less,
        g.total ∙ t.total,
      )
]
