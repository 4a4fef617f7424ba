-- ===== src/Tests/Boot.antt =====
-- Booting with memory that is 0 at first.
use meringue_os.Prelude.{
  ℕ, zero, suc, ◌*◌, ◌≤◌, ◌<◌, ◌≡◌, true, false, Bool, arith, none, leb, Bool-cases, inl, inr, ◌∙◌,
}
use meringue_os.Frames.{Linker, Pmm, page_size, total_frames, frame_alloc_init}
use meringue_os.Frames.Bitmap.{count_clear}
use meringue_os.Frames.Marking.{is_used}
use meringue_os.Frames.Init.{IsLinked, IsInitial, reserved, frame_alloc_init-IsInitial}
use meringue_os.Heap.{Kheap}
use meringue_os.Heap.Boot.{Booted}
use meringue_os.Kernel.Main.{boot_heap, boot_heap-Booted}

abbrev layout : Linker
layout = record {
  kernel_start = 0x4010_0000;
  kernel_end = 0x4014_0000;
  bitmap_start = 0x4012_0000;
  bitmap_end = 0x4014_0000;
}

layout-IsLinked : IsLinked layout
layout-IsLinked = omega arith

abbrev heap : Kheap
heap = record {
  pmm = record { mem = λ _. 0; total_memory = 0; free_memory = 0; highest_usable_address = 0 };
  free_list_head = 0;
  heap_start = 0;
  heap_end = 0;
}

abbrev booted : Pmm
booted = frame_alloc_init layout none heap.pmm

initial : IsInitial layout none booted
initial = frame_alloc_init-IsInitial layout layout-IsLinked none heap.pmm tt (λ a. omega arith)

-- Each of the first `k` frames is clear, so that as many are counted.
first_clear :
    (n k : ℕ) (f : ℕ → Bool) → k ≤ n → ((j : ℕ) → j < k → f j ≡ false) → k ≤ count_clear n f
unfolding count_clear
first_clear zero k f h clear = h
first_clear (suc n) k f h clear = elim (Bool-cases (leb k n)) [
  | inl y ↦ let le : k ≤ n = ground arith in ground (arith, first_clear n k f le clear)
  | inr e ↦
      let all : k ≡ suc n = ground arith in
      let last : f n ≡ false = clear n (omega arith) in
      let others = first_clear n n f (omega arith) (λ j p. clear j (omega arith)) in
      rw last (omega arith)
]

room : 5 * page_size ≤ booted.free_memory
room =
    let five =
      first_clear total_frames 5 (is_used layout booted) (omega arith)
        (λ j p. initial.used j (omega arith) ∙ ground arith) in
    omega (arith, initial.sound.counted, five)

boot_heap-Booted_example :
    (k : ℕ) × (k < total_frames)
    × (reserved layout none k ≡ false)
    × ((j : ℕ) → j < k → reserved layout none j ≡ true)
    × Booted booted k (boot_heap layout none heap)
boot_heap-Booted_example =
    boot_heap-Booted layout none heap layout-IsLinked tt (λ a. omega arith) room
