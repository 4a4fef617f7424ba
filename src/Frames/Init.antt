-- ===== src/Frames/Init.antt =====
-- `frame_alloc_init` of src/memory/frame_alloc.c: the state that it leaves.
use meringue_os.Prelude.{
  ℕ, ◌+◌, ◌-◌, ◌/◌, ◌%◌, ◌≤◌, ◌<◌, ◌≡◌, refl, Bool, true, false, ◌||◌, arith, ◌∙◌, sub64, Option,
  none, some,
}
use meringue_os.Memory.{IsBytes, memset_lem, memset-IsBytes}
use meringue_os.Frames.{
  Linker, BootParams, Pmm, test_bit, mark_range_used, mark_range_free, mark_kernel, bitmap_size,
  blank, frame_alloc_init, ram_base, max_address, manageable_size, total_frames,
}
use meringue_os.Frames.Bits.{byte_test_full}
use meringue_os.Frames.Bitmap.{count_clear, count_clear_none}
use meringue_os.Frames.Marking.{is_used, IsCounted}
use meringue_os.Frames.Range.{
  IsRange, overlaps, is_used-mark_range_used, mark_range_used-IsCounted, mark_range_used_totals,
  is_used_all_free, all_free-IsCounted, all_free_totals,
}

-- 128 KB are reserved for the bitmap (linker.ld).
abbrev pub bitmap_bytes : ℕ
bitmap_bytes = 0x20000

-- The layout of linker.ld, in the RAM that the allocator manages.
pub record IsLinked (L : Linker) : Type 0 where
  pub kernel_low : ram_base ≤ L.kernel_start
  pub kernel_order : L.kernel_start < L.kernel_end
  pub kernel_high : L.kernel_end ≤ max_address
  pub bitmap_low : ram_base ≤ L.bitmap_start
  pub bitmap_reserved : L.bitmap_end ≡ L.bitmap_start + bitmap_bytes
  pub bitmap_high : L.bitmap_end ≤ max_address

-- The range that holds the kernel: that of the boot parameters, or else the linker's.
abbrev pub kernel_first : Linker → Option BootParams → ℕ
kernel_first L (some p) = p.kernel_phys_start
kernel_first L none = L.kernel_start

abbrev pub kernel_after : Linker → Option BootParams → ℕ
kernel_after L (some p) = p.kernel_phys_end
kernel_after L none = L.kernel_end

module _ (L : Linker) (l : IsLinked L) where
  bitmap_size_lem : bitmap_size L ≡ bitmap_bytes
  unfolding bitmap_size
  bitmap_size_lem = omega (arith, l.bitmap_reserved, l.bitmap_high)

  module _ (s : Pmm) (b : IsBytes s.mem) where
    blank_used : (j : ℕ) → j < total_frames → is_used L (blank L s) j ≡ true
    unfolding blank test_bit
    blank_used j p = ground (
      arith,
      bitmap_size_lem,
      memset_lem s.mem L.bitmap_start 0xff (bitmap_size L) (L.bitmap_start + j / 8),
      byte_test_full (j % 8) (omega arith),
    )

    blank-IsCounted : IsCounted L (blank L s)
    blank-IsCounted = record {
      bytes = unfold blank in memset-IsBytes s.mem L.bitmap_start 0xff (bitmap_size L) b;
      counted =
          let none_clear : count_clear total_frames (is_used L (blank L s)) ≡ 0 =
            count_clear_none total_frames (is_used L (blank L s)) blank_used in
          let none_free : (blank L s).free_memory ≡ 0 = unfold blank in refl in
          omega (arith, none_clear, none_free);
    }

-- A frame is in use from the start if the kernel or the bitmap lies in it.
abbrev pub reserved : Linker → Option BootParams → ℕ → Bool
reserved L params j =
    overlaps (kernel_first L params) (kernel_after L params - kernel_first L params) j
    || overlaps L.bitmap_start bitmap_bytes j

-- The boot parameters, where there are any, name a range of RAM.
abbrev pub IsBootable : Option BootParams → Type 0
IsBootable none = Unit
IsBootable (some p) =
    (ram_base ≤ p.kernel_phys_start)
    × (p.kernel_phys_start < p.kernel_phys_end)
    × (p.kernel_phys_end ≤ max_address)

-- The state after `frame_alloc_init`.
pub record IsInitial (L : Linker) (params : Option BootParams) (s : Pmm) : Type 0 where
  pub sound : IsCounted L s
  pub used : (j : ℕ) → j < total_frames → is_used L s j ≡ reserved L params j
  pub balanced : s.total_memory ≡ s.free_memory
  pub highest : s.highest_usable_address ≡ max_address

abbrev pub kernel_size : Linker → Option BootParams → ℕ
kernel_size L params = kernel_after L params - kernel_first L params

module _ (L : Linker) (l : IsLinked L) where
  -- The range that `mark_kernel` marks, whichever its source, lies in RAM.
  kernel-IsRange :
      (params : Option BootParams)
      → IsBootable params
      → IsRange (kernel_first L params) (kernel_size L params)
  kernel-IsRange none ok = record {
    low = l.kernel_low;
    nonempty = omega (arith, l.kernel_order);
    fits = omega (arith, l.kernel_order, l.kernel_high);
  }
  kernel-IsRange (some p) ok = omega arith

  bitmap-IsRange : IsRange L.bitmap_start bitmap_bytes
  bitmap-IsRange = record {
    low = l.bitmap_low;
    nonempty = omega arith;
    fits = omega (arith, l.bitmap_reserved, l.bitmap_high);
  }

  mark_kernel_lem :
      (params : Option BootParams) (s : Pmm)
      → IsBootable params
      → mark_kernel L params s
        ≡ mark_range_used L
            (kernel_first L params)
            (kernel_size L params)
            (mark_range_free L ram_base manageable_size s)
  unfolding mark_kernel
  mark_kernel_lem none s ok =
      let size : sub64 L.kernel_end L.kernel_start ≡ L.kernel_end - L.kernel_start =
        omega (arith, l.kernel_low, l.kernel_order, l.kernel_high) in
      rw size
  mark_kernel_lem (some p) s ok =
      let size : sub64 p.kernel_phys_end p.kernel_phys_start
          ≡ p.kernel_phys_end - p.kernel_phys_start =
        omega arith in
      rw size

  -- The last two steps, from a state in which all frames are free.
  reserve :
      (params : Option BootParams) (s : Pmm)
      → IsBootable params
      → IsCounted L s
      → ((j : ℕ) → j < total_frames → is_used L s j ≡ false)
      → s.total_memory ≡ s.free_memory
      → s.highest_usable_address ≡ max_address
      → IsInitial L params (
          mark_range_used L L.bitmap_start bitmap_bytes
            (mark_range_used L (kernel_first L params) (kernel_size L params) s))
  reserve params s ok c all_free even top =
      let first = kernel_first L params in
      let size = kernel_size L params in
      let rk = kernel-IsRange params ok in
      let rb = bitmap-IsRange in
      let k = mark_range_used L first size s in
      let ck = mark_range_used-IsCounted first size rk L s c in
      let tk = mark_range_used_totals first size rk L s c even in
      let t = mark_range_used_totals L.bitmap_start bitmap_bytes rb L k ck tk.0 in
      record {
        sound = mark_range_used-IsCounted L.bitmap_start bitmap_bytes rb L k ck;
        used = λ j p. ground (
          arith,
          is_used-mark_range_used L.bitmap_start bitmap_bytes rb L k ck j p,
          is_used-mark_range_used first size rk L s c j p,
          all_free j p,
        );
        balanced = t.0;
        highest = t.1 ∙ tk.1 ∙ top;
      }

  -- After initialisation exactly the frames that the kernel or the bitmap overlaps are used,
  -- `free_memory` counts the others and equals `total_memory`, and the highest usable address is
  -- the end of the managed memory: for a linker layout and, if given, boot parameters within RAM,
  -- whatever bytes memory held before.
  pub frame_alloc_init-IsInitial :
      (params : Option BootParams) (s : Pmm)
      → IsBootable params
      → IsBytes s.mem
      → IsInitial L params (frame_alloc_init L params s)
  unfolding frame_alloc_init
  frame_alloc_init-IsInitial params s ok b =
      let c = blank-IsCounted L l s b in
      let (even, top) =
        all_free_totals L (blank L s) c (unfold blank in refl) (blank_used L l s b)
          (unfold blank in refl) in
      rw (bitmap_size_lem L l, mark_kernel_lem params (blank L s) ok)
        (reserve params _ ok (all_free-IsCounted L (blank L s) c) (is_used_all_free L (blank L s) c)
          even top)
