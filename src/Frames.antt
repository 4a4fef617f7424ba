-- ===== src/Frames.antt =====
-- The physical frame allocator, src/memory/frame_alloc.c. The bitmap lies in the memory that the
-- allocator hands out, at the address that the linker gives. What is logged is left out.
pub mod Bits
pub mod Bitmap
pub mod Marking
pub mod Range
pub mod Init
pub mod Alloc
pub mod Free
pub mod Run
mod Tests
use meringue_os.Prelude.{
  ℕ, zero, suc, ◌+◌, ◌-◌, ◌*◌, ◌/◌, ◌%◌, Bool, true, false, ◌||◌, not, Option, none, some, leb, ltb,
  ◌==◌, if◌then◌else◌, word_mod, add64, sub64,
}
use meringue_os.Memory.{Mem, write, memset}
use Bits.{byte_set, byte_clear, byte_test}

abbrev pub page_size : ℕ
page_size = 4096

abbrev pub ram_base : ℕ
ram_base = 0x4000_0000

abbrev pub manageable_size : ℕ
manageable_size = 0x4000_0000

abbrev pub max_address : ℕ
max_address = 0x8000_0000

abbrev pub total_frames : ℕ
total_frames = 262_144

-- The addresses of the linker's symbols.
pub record Linker : Type 0 where
  pub kernel_start : ℕ
  pub kernel_end : ℕ
  pub bitmap_start : ℕ
  pub bitmap_end : ℕ

-- The fields of KERNEL_BOOT_PARAMS that the code reads.
pub record BootParams : Type 0 where
  pub kernel_phys_start : ℕ
  pub kernel_phys_end : ℕ

-- Memory and the static variables.
pub record Pmm : Type 0 where
  pub mem : Mem
  pub total_memory : ℕ
  pub free_memory : ℕ
  pub highest_usable_address : ℕ

-- Bits of the bitmap at `bitmap`.
unfoldable pub set_bit : ℕ → Mem → ℕ → Mem
set_bit bitmap m bit = write m (bitmap + bit / 8) (byte_set (m (bitmap + bit / 8)) (bit % 8))

unfoldable pub clear_bit : ℕ → Mem → ℕ → Mem
clear_bit bitmap m bit = write m (bitmap + bit / 8) (byte_clear (m (bitmap + bit / 8)) (bit % 8))

unfoldable pub test_bit : ℕ → Mem → ℕ → Bool
test_bit bitmap m bit = byte_test (m (bitmap + bit / 8)) (bit % 8)

abbrev pub frame_addr : ℕ → ℕ
frame_addr i = ram_base + i * page_size

module _ (L : Linker) where
  -- The body of the loop of `mark_range_used`, for frame `i`.
  unfoldable pub use_frame : ℕ → Pmm → Pmm
  use_frame i s = if test_bit L.bitmap_start s.mem i then s else record s {
    mem = set_bit L.bitmap_start s.mem i;
    total_memory =
        if leb page_size s.total_memory then s.total_memory - page_size else s.total_memory;
    free_memory = if leb page_size s.free_memory then s.free_memory - page_size else s.free_memory;
  }

  -- `n` rounds from frame `i`.
  unfoldable pub use_frames : ℕ → ℕ → Pmm → Pmm
  use_frames zero i s = s
  use_frames (suc n) i s = use_frames n (i + 1) (use_frame i s)

  -- The body of the loop of `mark_range_free`.
  unfoldable pub release_frame : ℕ → Pmm → Pmm
  release_frame i s =
      if test_bit L.bitmap_start s.mem i
      then record s {
        mem = clear_bit L.bitmap_start s.mem i;
        total_memory = add64 s.total_memory page_size;
        free_memory = add64 s.free_memory page_size;
        highest_usable_address =
            if ltb s.highest_usable_address (ram_base + (i + 1) * page_size)
            then ram_base + (i + 1) * page_size
            else s.highest_usable_address;
      }
      else record s { mem = clear_bit L.bitmap_start s.mem i }

  unfoldable pub release_frames : ℕ → ℕ → Pmm → Pmm
  release_frames zero i s = s
  release_frames (suc n) i s = release_frames n (i + 1) (release_frame i s)

-- The first and the last frame of a range, as both marking functions compute them.
unfoldable pub start_frame : ℕ → ℕ
start_frame base_addr =
    if leb ram_base base_addr then (base_addr - ram_base) / page_size else word_mod - 1

unfoldable pub end_frame : ℕ → ℕ → ℕ
end_frame base_addr size =
    if ltb ram_base (add64 base_addr size)
    then (add64 base_addr size - 1 - ram_base) / page_size
    else 0

unfoldable pub capped_end_frame : ℕ → ℕ → ℕ
capped_end_frame base_addr size =
    if leb total_frames (end_frame base_addr size)
    then total_frames - 1
    else end_frame base_addr size

module _ (L : Linker) where
  unfoldable pub mark_range_used : ℕ → ℕ → Pmm → Pmm
  mark_range_used base_addr size s =
      if leb total_frames (start_frame base_addr)
      then s
      else use_frames L (capped_end_frame base_addr size + 1 - start_frame base_addr)
          (start_frame base_addr) s

  unfoldable pub mark_range_free : ℕ → ℕ → Pmm → Pmm
  mark_range_free base_addr size s =
      if leb total_frames (start_frame base_addr)
      then s
      else release_frames L (capped_end_frame base_addr size + 1 - start_frame base_addr)
          (start_frame base_addr) s

  -- The kernel's range comes from the boot parameters, where there are any.
  unfoldable pub mark_kernel : Option BootParams → Pmm → Pmm
  mark_kernel (some p) s =
      mark_range_used p.kernel_phys_start (sub64 p.kernel_phys_end p.kernel_phys_start)
        (mark_range_free ram_base manageable_size s)
  mark_kernel none s =
      mark_range_used L.kernel_start (sub64 L.kernel_end L.kernel_start)
        (mark_range_free ram_base manageable_size s)

  unfoldable pub bitmap_size : ℕ
  bitmap_size = sub64 L.bitmap_end L.bitmap_start

  -- All frames are used, and nothing is counted yet.
  unfoldable pub blank : Pmm → Pmm
  blank s = record s {
    mem = memset s.mem L.bitmap_start 0xff bitmap_size;
    total_memory = 0;
    free_memory = 0;
    highest_usable_address = ram_base;
  }

  unfoldable pub frame_alloc_init : Option BootParams → Pmm → Pmm
  frame_alloc_init params s =
      mark_range_used L.bitmap_start bitmap_size (mark_kernel params (blank s))

  -- What `alloc_frame` does with the free frame that it finds.
  unfoldable pub take_frame : ℕ → Pmm → Pmm
  take_frame i s = record s {
    mem = memset (set_bit L.bitmap_start s.mem i) (frame_addr i) 0 page_size;
    free_memory = sub64 s.free_memory page_size;
  }

  -- The search from frame `i` over `n` frames. NULL is 0.
  unfoldable pub alloc_loop : ℕ → ℕ → Pmm → Pmm × ℕ
  alloc_loop zero i s = (s, 0)
  alloc_loop (suc n) i s =
      let rest = alloc_loop n (i + 1) s in
      if not (test_bit L.bitmap_start s.mem i) then (take_frame i s, frame_addr i) else rest

  unfoldable pub alloc_frame : Pmm → Pmm × ℕ
  alloc_frame s = alloc_loop total_frames 0 s

  unfoldable pub free_frame : ℕ → Pmm → Pmm
  free_frame addr s =
      if addr == 0
      then s
      else if ltb addr ram_base || leb max_address addr
      then s
      else if not (addr % page_size == 0)
      then s
      else if leb total_frames ((addr - ram_base) / page_size)
      then s
      else if not (test_bit L.bitmap_start s.mem ((addr - ram_base) / page_size))
      then s
      else record s {
        mem = clear_bit L.bitmap_start s.mem ((addr - ram_base) / page_size);
        free_memory = add64 s.free_memory page_size;
      }

unfoldable pub pmm_get_total_memory : Pmm → ℕ
pmm_get_total_memory s = s.total_memory

unfoldable pub pmm_get_free_memory : Pmm → ℕ
pmm_get_free_memory s = s.free_memory

unfoldable pub pmm_get_highest_usable_address : Pmm → ℕ
pmm_get_highest_usable_address s = s.highest_usable_address
