-- ===== src/Frames/Range.antt =====
-- Whole ranges of src/memory/frame_alloc.c: `mark_range_used` and `mark_range_free` change exactly
-- the frames that overlap the range.
use meringue_os.Prelude.{
  ℕ, ◌+◌, ◌-◌, ◌≤◌, ◌<◌, ◌≡◌, refl, Bool, true, false, ◌&&◌, ◌||◌, arith, ltb, leb, Bool-cases, inl,
  inr, ◌∙◌, word_mod,
}
use meringue_os.Memory.{within}
use meringue_os.Frames.{
  Linker, Pmm, release_frames, start_frame, end_frame, capped_end_frame, mark_range_used,
  mark_range_free, frame_addr, ram_base, max_address, total_frames, manageable_size,
}
use meringue_os.Frames.Marking.{
  is_used, IsCounted, is_used-use_frames, is_used-release_frames, use_frames-IsCounted,
  release_frames-IsCounted, use_frames_totals, release_frames_totals, release_frames_highest,
}

-- Frame `j` shares a byte with the `size` bytes from `base`.
abbrev pub overlaps : ℕ → ℕ → ℕ → Bool
overlaps base size j = ltb base (frame_addr (j + 1)) && ltb (frame_addr j) (base + size)

-- A range of addresses from RAM upwards that is not empty and does not wrap around.
pub record IsRange (base size : ℕ) : Type 0 where
  pub low : ram_base ≤ base
  pub nonempty : 0 < size
  pub fits : base + size < word_mod

module _ (base size : ℕ) (range : IsRange base size) where
  -- The frames that the marking functions go through are those that overlap the range.
  range_frames :
      (j : ℕ)
      → j < total_frames
      → leb total_frames (start_frame base) ≡ false
      → within (start_frame base) (capped_end_frame base size + 1 - start_frame base) j
        ≡ overlaps base size j
  unfolding start_frame capped_end_frame end_frame
  range_frames j p inside = ground arith

  past_ram :
      (j : ℕ)
      → j < total_frames
      → leb total_frames (start_frame base) ≡ true
      → overlaps base size j ≡ false
  unfolding start_frame
  past_ram j p outside = ground arith

  -- They are managed frames.
  range_bound :
      leb total_frames (start_frame base) ≡ false
      → start_frame base + (capped_end_frame base size + 1 - start_frame base) ≤ total_frames
  unfolding start_frame capped_end_frame end_frame
  range_bound inside = ground arith

  module _ (L : Linker) (s : Pmm) (c : IsCounted L s) where
    -- For a range that starts in or above RAM, is not empty and does not wrap around, where
    -- `free_memory` counts the free frames: `mark_range_used` sets the bits of the managed frames
    -- that overlap the range, and no other.
    pub is_used-mark_range_used :
        (j : ℕ)
        → j < total_frames
        → is_used L (mark_range_used L base size s) j ≡ (overlaps base size j || is_used L s j)
    unfolding mark_range_used
    is_used-mark_range_used j p = elim (Bool-cases (leb total_frames (start_frame base))) [
      | inl out ↦ rw (out, past_ram j p out)
      | inr inside ↦ rw (inside, is_used-use_frames L _ _ s c.bytes j, range_frames j p inside)
    ]

    pub mark_range_used-IsCounted : IsCounted L (mark_range_used L base size s)
    unfolding mark_range_used
    mark_range_used-IsCounted = elim (Bool-cases (leb total_frames (start_frame base))) [
      | inl out ↦ rw out c
      | inr inside ↦ rw inside (use_frames-IsCounted L _ _ s (range_bound inside) c)
    ]

    pub mark_range_used_totals :
        s.total_memory ≡ s.free_memory
        → ((mark_range_used L base size s).total_memory
            ≡ (mark_range_used L base size s).free_memory)
          × ((mark_range_used L base size s).highest_usable_address ≡ s.highest_usable_address)
    unfolding mark_range_used
    mark_range_used_totals e = elim (Bool-cases (leb total_frames (start_frame base))) [
      | inl out ↦ rw out (e, refl)
      | inr inside ↦ rw inside (use_frames_totals L _ _ s e)
    ]

-- The call of `mark_range_free` on all of the managed memory goes through all frames.
mark_all_free :
    (L : Linker) (s : Pmm)
    → mark_range_free L ram_base manageable_size s ≡ release_frames L total_frames 0 s
unfolding mark_range_free start_frame end_frame capped_end_frame
mark_all_free L s = refl

module _ (L : Linker) (s : Pmm) (c : IsCounted L s) where
  pub is_used_all_free :
      (j : ℕ)
      → j < total_frames
      → is_used L (mark_range_free L ram_base manageable_size s) j ≡ false
  is_used_all_free j p =
      rw (mark_all_free, is_used-release_frames L total_frames 0 s c.bytes j) (ground arith)

  pub all_free-IsCounted : IsCounted L (mark_range_free L ram_base manageable_size s)
  all_free-IsCounted =
      rw mark_all_free (release_frames-IsCounted L total_frames 0 s (omega arith) c)

  pub all_free_totals :
      s.total_memory ≡ s.free_memory
      → ((j : ℕ) → j < total_frames → is_used L s j ≡ true)
      → s.highest_usable_address ≡ ram_base
      → ((mark_range_free L ram_base manageable_size s).total_memory
          ≡ (mark_range_free L ram_base manageable_size s).free_memory)
        × ((mark_range_free L ram_base manageable_size s).highest_usable_address ≡ max_address)
  all_free_totals e used low = rw mark_all_free (
    release_frames_totals L total_frames 0 s e,
    release_frames_highest L total_frames 0 s c.bytes (λ j _ p. used j (omega arith)) (omega arith)
        ∙ omega arith,
  )
