-- ===== src/Frames/Marking.antt =====
-- `mark_range_used` and `mark_range_free` of src/memory/frame_alloc.c: which bits they change, and
-- what they do to the counts.
use meringue_os.Prelude.{
  ℕ, zero, suc, ◌+◌, ◌-◌, ◌*◌, ◌≤◌, ◌<◌, ◌≡◌, refl, Bool, true, false, ◌&&◌, ◌||◌, not, arith, ◌==◌,
  Bool-cases, inl, inr, ◌∙◌, add64,
}
use meringue_os.Memory.{IsBytes, within}
use meringue_os.Frames.{
  Linker, Pmm, test_bit, use_frame, use_frames, release_frame, release_frames, frame_addr,
  page_size, total_frames,
}
use meringue_os.Frames.Bitmap.{
  test_bit-set_bit, test_bit-clear_bit, set_bit-IsBytes, clear_bit-IsBytes, count_clear,
  count_clear-set, count_clear-le, count_clear-eq,
}

module _ (L : Linker) where
  abbrev pub is_used : Pmm → ℕ → Bool
  is_used s j = test_bit L.bitmap_start s.mem j

  -- Memory holds bytes, and `free_memory` counts the clear bits.
  pub record IsCounted (s : Pmm) : Type 0 where
    pub bytes : IsBytes s.mem
    pub counted : s.free_memory ≡ page_size * count_clear total_frames (is_used s)

  module _ (s : Pmm) (b : IsBytes s.mem) (i : ℕ) where
    pub is_used-use_frame : (j : ℕ) → is_used (use_frame L i s) j ≡ ((i == j) || is_used s j)
    unfolding use_frame
    is_used-use_frame j = elim (Bool-cases (i == j)) [
      | inl e ↦
          let e' : i ≡ j = ground arith in
          ground (arith, test_bit-set_bit L.bitmap_start s.mem b i j)
      | inr e ↦ ground (arith, test_bit-set_bit L.bitmap_start s.mem b i j)
    ]

    pub use_frame-IsBytes : IsBytes (use_frame L i s).mem
    unfolding use_frame
    use_frame-IsBytes a = ground (arith, set_bit-IsBytes L.bitmap_start s.mem b i a, b a)

    pub is_used-release_frame :
        (j : ℕ) → is_used (release_frame L i s) j ≡ (not (i == j) && is_used s j)
    unfolding release_frame
    is_used-release_frame j = ground (arith, test_bit-clear_bit L.bitmap_start s.mem b i j)

    pub release_frame-IsBytes : IsBytes (release_frame L i s).mem
    unfolding release_frame
    release_frame-IsBytes a = ground (arith, clear_bit-IsBytes L.bitmap_start s.mem b i a)

  pub is_used-use_frames :
      (n i : ℕ) (s : Pmm)
      → IsBytes s.mem
      → (j : ℕ) → is_used (use_frames L n i s) j ≡ (within i n j || is_used s j)
  unfolding use_frames
  is_used-use_frames zero i s b j = ground arith
  is_used-use_frames (suc n) i s b j = ground (
    arith,
    is_used-use_frames n (i + 1) (use_frame L i s) (use_frame-IsBytes s b i) j,
    is_used-use_frame s b i j,
  )

  pub is_used-release_frames :
      (n i : ℕ) (s : Pmm)
      → IsBytes s.mem
      → (j : ℕ) → is_used (release_frames L n i s) j ≡ (not (within i n j) && is_used s j)
  unfolding release_frames
  is_used-release_frames zero i s b j = ground arith
  is_used-release_frames (suc n) i s b j = ground (
    arith,
    is_used-release_frames n (i + 1) (release_frame L i s) (release_frame-IsBytes s b i) j,
    is_used-release_frame s b i j,
  )

  module _ (i : ℕ) (s : Pmm) (p : i < total_frames) (c : IsCounted s) where
    -- The count after a bit is set that was clear, and after one is cleared.
    count-use_frame :
        is_used s i ≡ false
        → count_clear total_frames (is_used s)
          ≡ suc (count_clear total_frames (is_used (use_frame L i s)))
    count-use_frame free =
        count_clear-set total_frames i (is_used s) (is_used (use_frame L i s)) p free
          (λ j _. is_used-use_frame s c.bytes i j)

    count-release_frame :
        is_used s i ≡ true
        → count_clear total_frames (is_used (release_frame L i s))
          ≡ suc (count_clear total_frames (is_used s))
    count-release_frame used =
        count_clear-set total_frames i (is_used (release_frame L i s)) (is_used s) p
          (rw (is_used-release_frame s c.bytes i i) (ground arith)) (λ j _. restored j)
      where
        restored : (j : ℕ) → is_used s j ≡ ((i == j) || is_used (release_frame L i s) j)
        restored j = elim (Bool-cases (i == j)) [
          | inl e ↦ let e' : i ≡ j = ground arith in rw (e, ← e') used
          | inr e ↦ rw (e, is_used-release_frame s c.bytes i j, e) refl
        ]

    recount-release_frame :
        is_used s i ≡ false
        → count_clear total_frames (is_used (release_frame L i s))
          ≡ count_clear total_frames (is_used s)
    recount-release_frame free =
        count_clear-eq total_frames _ _ λ j _. is_used-release_frame s c.bytes i j ∙ same j
      where
        same : (j : ℕ) → (not (i == j) && is_used s j) ≡ is_used s j
        same j = elim (Bool-cases (i == j)) [
          | inl e ↦ let e' : i ≡ j = ground arith in rw (e, ← e', free) refl
          | inr e ↦ rw e refl
        ]

    pub use_frame-IsCounted : IsCounted (use_frame L i s)
    use_frame-IsCounted = record {
      bytes = use_frame-IsBytes s c.bytes i;
      counted = elim (Bool-cases (is_used s i)) [
        | inl used ↦ unfold use_frame in rw used c.counted
        | inr free ↦ step free (count-use_frame free)
      ];
    }
      where
        step :
            is_used s i ≡ false
            → count_clear total_frames (is_used s)
              ≡ suc (count_clear total_frames (is_used (use_frame L i s)))
            → (use_frame L i s).free_memory
              ≡ page_size * count_clear total_frames (is_used (use_frame L i s))
        step free e =
            let less : (use_frame L i s).free_memory ≡ s.free_memory - page_size =
              unfold use_frame in ground (arith, c.counted, e) in
            omega (arith, less, c.counted, e)

    pub release_frame-IsCounted : IsCounted (release_frame L i s)
    release_frame-IsCounted = record {
      bytes = release_frame-IsBytes s c.bytes i;
      counted = elim (Bool-cases (is_used s i)) [
        | inl used ↦
            let more : (release_frame L i s).free_memory ≡ add64 s.free_memory page_size =
              unfold release_frame in rw used in
            omega (
              arith,
              more,
              c.counted,
              count-release_frame used,
              count_clear-le total_frames (is_used (release_frame L i s)),
            )
        | inr free ↦
            let same : (release_frame L i s).free_memory ≡ s.free_memory =
              unfold release_frame in rw free in
            omega (arith, same, c.counted, recount-release_frame free)
      ];
    }

  pub use_frames-IsCounted :
      (n i : ℕ) (s : Pmm) → i + n ≤ total_frames → IsCounted s → IsCounted (use_frames L n i s)
  unfolding use_frames
  use_frames-IsCounted zero i s p c = c
  use_frames-IsCounted (suc n) i s p c =
      use_frames-IsCounted n (i + 1) (use_frame L i s) (omega arith)
        (use_frame-IsCounted i s (omega arith) c)

  pub release_frames-IsCounted :
      (n i : ℕ) (s : Pmm) → i + n ≤ total_frames → IsCounted s → IsCounted (release_frames L n i s)
  unfolding release_frames
  release_frames-IsCounted zero i s p c = c
  release_frames-IsCounted (suc n) i s p c =
      release_frames-IsCounted n (i + 1) (release_frame L i s) (omega arith)
        (release_frame-IsCounted i s (omega arith) c)

  -- Marking changes `total_memory` and `free_memory` alike, and marking as used leaves the highest
  -- address.
  pub use_frames_totals :
      (n i : ℕ) (s : Pmm)
      → s.total_memory ≡ s.free_memory
      → ((use_frames L n i s).total_memory ≡ (use_frames L n i s).free_memory)
        × ((use_frames L n i s).highest_usable_address ≡ s.highest_usable_address)
  unfolding use_frames use_frame
  use_frames_totals zero i s e = (e, refl)
  use_frames_totals (suc n) i s e = ground (arith, use_frames_totals n (i + 1) (use_frame L i s))

  pub release_frames_totals :
      (n i : ℕ) (s : Pmm)
      → s.total_memory ≡ s.free_memory
      → (release_frames L n i s).total_memory ≡ (release_frames L n i s).free_memory
  unfolding release_frames release_frame
  release_frames_totals zero i s e = e
  release_frames_totals (suc n) i s e =
      ground (arith, release_frames_totals n (i + 1) (release_frame L i s))

  -- Releasing a run of used frames raises the highest address to the end of the run.
  pub release_frames_highest :
      (n i : ℕ) (s : Pmm)
      → IsBytes s.mem
      → ((j : ℕ) → i ≤ j → j < i + n → is_used s j ≡ true)
      → s.highest_usable_address ≡ frame_addr i
      → (release_frames L n i s).highest_usable_address ≡ frame_addr (i + n)
  unfolding release_frames
  release_frames_highest zero i s b used e = omega arith
  release_frames_highest (suc n) i s b used e =
      release_frames_highest n (i + 1) (release_frame L i s) (release_frame-IsBytes s b i)
        (λ j p q. ground (arith, is_used-release_frame s b i j, used j))
        (unfold release_frame in ground (arith, used i))
      ∙ omega arith
