-- ===== src/Frames/Tests.antt =====
-- The frame allocator at a layout that linker.ld can give, with memory that is 0 at first.
use meringue_os.Prelude.{
  ℕ, ◌+◌, ◌<◌, ◌≡◌, ◌≢◌, ◌⊎◌, ◌↔◌, true, false, ◌||◌, arith, ◌==◌, inl, inr, Option, none, some,
}
use meringue_os.Frames.{
  Linker, BootParams, Pmm, set_bit, test_bit, mark_range_used, frame_alloc_init, alloc_frame,
  free_frame, frame_addr, total_frames, ram_base,
}
use meringue_os.Frames.Bitmap.{test_bit-set_bit}
use meringue_os.Frames.Marking.{is_used, IsCounted}
use meringue_os.Frames.Range.{overlaps, is_used-mark_range_used}
use meringue_os.Frames.Init.{
  bitmap_bytes, IsLinked, IsInitial, frame_alloc_init-IsInitial, kernel_first, kernel_size,
}
use meringue_os.Frames.Alloc.{Taken, alloc_frame_cases, alloc_frame-null}
use meringue_os.Frames.Free.{Given, free_frame_cases, free_frame-alloc_frame}
use meringue_os.Frames.Run.{
  Reach, IsGuarded, Reach-IsGuarded, IsGuarded-IsSafe, alloc_frame-reserved,
}

abbrev layout : Linker
layout = record {
  kernel_start = 0x4010_0000;
  kernel_end = 0x4014_0000;
  bitmap_start = 0x4012_0000;
  bitmap_end = 0x4014_0000;
}

layout-IsLinked : IsLinked layout
layout-IsLinked = omega arith

abbrev zeros : Pmm
zeros = record { mem = λ _. 0; total_memory = 0; free_memory = 0; highest_usable_address = 0 }

abbrev params : Option BootParams
params = some (record { kernel_phys_start = 0x4010_0000; kernel_phys_end = 0x4012_0000 })

abbrev booted : Pmm
booted = frame_alloc_init layout none zeros

frame_alloc_init-IsInitial_example : IsInitial layout params (frame_alloc_init layout params zeros)
frame_alloc_init-IsInitial_example =
    frame_alloc_init-IsInitial layout layout-IsLinked params zeros (omega arith) (λ a. omega arith)

booted-IsInitial : IsInitial layout none booted
booted-IsInitial =
    frame_alloc_init-IsInitial layout layout-IsLinked none zeros tt (λ a. omega arith)

booted-IsGuarded : IsGuarded layout none booted
booted-IsGuarded = Reach-IsGuarded layout none layout-IsLinked (Reach.start booted-IsInitial)

-- The frame at the start of RAM is free, and so there is a frame to allocate.
frame_zero_free : is_used layout booted 0 ≡ false
frame_zero_free = booted-IsInitial.used 0 (omega arith)

abbrev kernel_frame : ℕ
kernel_frame = 256

alloc_frame_cases_example :
    ((k : ℕ) × (k < total_frames)
      × (is_used layout booted k ≡ false)
      × ((j : ℕ) → j < k → is_used layout booted j ≡ true)
      × ((alloc_frame layout booted).1 ≡ frame_addr k)
      × Taken layout booted k (alloc_frame layout booted).0)
    ⊎ (((j : ℕ) → j < total_frames → is_used layout booted j ≡ true)
        × (alloc_frame layout booted ≡ (booted, 0)))
alloc_frame_cases_example =
    alloc_frame_cases layout booted booted-IsGuarded.sound
      (IsGuarded-IsSafe layout none booted-IsGuarded)

alloc_frame-null_example : ((alloc_frame layout booted).1 ≡ 0) ↔ (booted.free_memory ≡ 0)
alloc_frame-null_example =
    alloc_frame-null layout booted booted-IsGuarded.sound
      (IsGuarded-IsSafe layout none booted-IsGuarded)

allocates : (alloc_frame layout booted).1 ≢ 0
allocates z = elim found [
  | inl (k, p, f, below, e, t) ↦ omega arith
  | inr (all, e) ↦ cc (frame_zero_free, all 0 (omega arith))
]
  where
    found :
        ((k : ℕ) × (k < total_frames)
          × (is_used layout booted k ≡ false)
          × ((j : ℕ) → j < k → is_used layout booted j ≡ true)
          × ((alloc_frame layout booted).1 ≡ frame_addr k)
          × Taken layout booted k (alloc_frame layout booted).0)
        ⊎ (((j : ℕ) → j < total_frames → is_used layout booted j ≡ true)
            × (alloc_frame layout booted ≡ (booted, 0)))
    found =
        alloc_frame_cases layout booted booted-IsGuarded.sound
          (IsGuarded-IsSafe layout none booted-IsGuarded)

free_frame-alloc_frame_example :
    ((j : ℕ)
      → j < total_frames
      → is_used layout
          (free_frame layout (alloc_frame layout booted).1 (alloc_frame layout booted).0)
          j
        ≡ is_used layout booted j)
    × ((free_frame layout (alloc_frame layout booted).1 (alloc_frame layout booted).0).free_memory
        ≡ booted.free_memory)
    × ((free_frame layout (alloc_frame layout booted).1 (alloc_frame layout booted).0).total_memory
        ≡ booted.total_memory)
free_frame-alloc_frame_example =
    free_frame-alloc_frame layout booted booted-IsGuarded.sound
      (IsGuarded-IsSafe layout none booted-IsGuarded) allocates

free_frame_cases_example :
    ((i : ℕ) × (i < total_frames)
      × (frame_addr kernel_frame ≡ frame_addr i)
      × (is_used layout booted i ≡ true)
      × Given layout booted i (free_frame layout (frame_addr kernel_frame) booted)
      × IsCounted layout (free_frame layout (frame_addr kernel_frame) booted))
    ⊎ (((i : ℕ)
          → i < total_frames
          → frame_addr kernel_frame ≡ frame_addr i
          → is_used layout booted i ≡ false)
        × (free_frame layout (frame_addr kernel_frame) booted ≡ booted))
free_frame_cases_example =
    free_frame_cases layout booted (frame_addr kernel_frame) booted-IsGuarded.sound

alloc_frame-reserved_example :
    ((alloc_frame layout (alloc_frame layout booted).0).1 ≡ 0)
    ⊎ ((k : ℕ) × (k < total_frames)
        × ((alloc_frame layout (alloc_frame layout booted).0).1 ≡ frame_addr k)
        × (is_used layout (alloc_frame layout booted).0 k ≡ false)
        × (overlaps (kernel_first layout none) (kernel_size layout none) k ≡ false)
        × (overlaps layout.bitmap_start bitmap_bytes k ≡ false))
alloc_frame-reserved_example =
    alloc_frame-reserved layout none layout-IsLinked (Reach.alloc (Reach.start booted-IsInitial))

is_used-mark_range_used_example :
    is_used layout (mark_range_used layout (ram_base + 8191) 2 booted) 2
    ≡ (overlaps (ram_base + 8191) 2 2 || is_used layout booted 2)
is_used-mark_range_used_example =
    is_used-mark_range_used (ram_base + 8191) 2 (omega arith) layout booted booted-IsGuarded.sound 2
      (omega arith)

test_bit-set_bit_example :
    test_bit layout.bitmap_start (set_bit layout.bitmap_start zeros.mem 9) 9
    ≡ ((9 == 9) || test_bit layout.bitmap_start zeros.mem 9)
test_bit-set_bit_example = test_bit-set_bit layout.bitmap_start zeros.mem (λ a. omega arith) 9 9
