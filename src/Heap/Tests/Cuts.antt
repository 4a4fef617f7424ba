-- ===== src/Heap/Tests/Cuts.antt =====
-- `split` of src/memory/kheap.c on a block of 256 bytes at 0x4000_0000, which the only free block, at
-- 0x4000_2000, comes after.
use meringue_os.Prelude.{◌≡◌, inl, inr, refl, [], ◌∷◌, arith, ◌||◌, ◌==◌, if◌then◌else◌}
use meringue_os.Memory.Access.{load}
use meringue_os.Heap.{Kheap, mem, split}
use meringue_os.Heap.Header.{size_at, is_free_at, next_at, next_free_at, prev_free_at}
use meringue_os.Heap.Segments.{IsFreeList}
use meringue_os.Heap.Malloc.Split.Rest.{IsSplit, split_lem}

abbrev before : Kheap
before = record {
  pmm = record {
    mem = λ a.
        if a == 0x4000_0001 || a == 0x4000_2008
        then 1
        else if a == 0x4000_0011
        then 0x20
        else if a == 0x4000_0013 || a == 0x4000_201b
        then 0x40
        else 0;
    total_memory = 0;
    free_memory = 0;
    highest_usable_address = 0;
  };
  free_list_head = 0x4000_2000;
  heap_start = 0x4000_0000;
  heap_end = 0x4000_2000;
}

before-IsFreeList : IsFreeList (mem before) 0x4000_2000 (0x4000_2000 ∷ [])
unfolding next_free_at prev_free_at is_free_at load
before-IsFreeList = record {
  chain = (refl, refl, refl);
  ptrs = (omega arith, tt);
  spread = (tt, tt);
  free = (refl, tt);
}

size_before : size_at (mem before) 0x4000_0000 ≡ 256
unfolding size_at load
size_before = refl

next_before : next_at (mem before) 0x4000_0000 ≡ 0x4000_2000
unfolding next_at load
next_before = refl

split_lem_example : IsSplit before (split 0x4000_0000 24 before) 0x4000_0000 24
split_lem_example =
    split_lem before 0x4000_0000 24 (0x4000_2000 ∷ []) (omega (arith, size_before))
      (omega (arith, size_before)) (omega (arith, next_before)) before-IsFreeList
      (inl (omega arith), tt) (inl (omega arith), tt) (inl next_before, tt)
      (inr (omega (arith, next_before), inr (omega (arith, next_before))))
      (inr (omega (arith, next_before), inr (omega (arith, next_before))))
