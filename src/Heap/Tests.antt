-- ===== src/Heap/Tests.antt =====
-- The heap of src/memory/kheap.c on small states: the free list in memory that is 0 at first, and an
-- allocation from a list of two blocks.
mod Cuts
use meringue_os.Prelude.{
  ◌≡◌, inl, inr, refl, false, [], ◌∷◌, arith, All, some, ◌||◌, ◌+◌, ◌%◌, ◌≤◌, ◌<◌, ◌==◌,
  if◌then◌else◌, add64,
}
use meringue_os.Frames.{Linker}
use meringue_os.Memory.Access.{load}
use meringue_os.Heap.{
  Kheap, mem, add_to_free_list, remove_from_free_list, first_fit, align, kmalloc, kfree,
}
use meringue_os.Heap.Header.{size_at, is_free_at, next_at, prev_at, next_free_at, prev_free_at}
use meringue_os.Heap.Search.{fitting, first_fit-fitting}
use meringue_os.Heap.Free.{kfree_alone}
use meringue_os.Heap.Free.Merge.{IsMergeable, kfree_merges}
use meringue_os.Heap.Malloc.{Allocated}
use meringue_os.Heap.Malloc.Found.{IsFound, left_list, align_lem, kmalloc-Allocated}
use meringue_os.Heap.Fields.{header}
use meringue_os.Heap.Links.Rest.{Rest}
use meringue_os.Heap.Segments.{IsFreeList}
use meringue_os.Heap.FreeList.{add_to_free_list-IsFreeList}
use meringue_os.Heap.FreeList.Remove.{remove_from_free_list-IsFreeList}

abbrev empty : Kheap
empty = record {
  pmm = record { mem = λ _. 0; total_memory = 0; free_memory = 0; highest_usable_address = 0 };
  free_list_head = 0;
  heap_start = 0;
  heap_end = 0;
}

abbrev one : Kheap
one = add_to_free_list 0x4000_0000 empty

abbrev two : Kheap
two = add_to_free_list 0x4000_1000 one

abbrev three : Kheap
three = add_to_free_list 0x4000_2000 two

empty-IsFreeList : IsFreeList (mem empty) empty.free_list_head []
empty-IsFreeList = record { chain = refl; ptrs = tt; spread = tt; free = tt }

one-IsFreeList : IsFreeList (mem one) one.free_list_head (0x4000_0000 ∷ [])
one-IsFreeList = add_to_free_list-IsFreeList 0x4000_0000 empty [] empty-IsFreeList (omega arith) tt

two-IsFreeList : IsFreeList (mem two) two.free_list_head (0x4000_1000 ∷ 0x4000_0000 ∷ [])
two-IsFreeList =
    add_to_free_list-IsFreeList 0x4000_1000 one (0x4000_0000 ∷ []) one-IsFreeList (omega arith)
      (inr (omega arith), tt)

add_to_free_list-IsFreeList_example :
    IsFreeList (mem three) three.free_list_head (0x4000_2000 ∷ 0x4000_1000 ∷ 0x4000_0000 ∷ [])
add_to_free_list-IsFreeList_example =
    add_to_free_list-IsFreeList 0x4000_2000 two (0x4000_1000 ∷ 0x4000_0000 ∷ []) two-IsFreeList
      (omega arith) (inr (omega arith), (inr (omega arith), tt))

three-IsFreeList :
    IsFreeList (mem three) three.free_list_head (0x4000_2000 ∷ 0x4000_1000 ∷ 0x4000_0000 ∷ [])
three-IsFreeList =
    add_to_free_list-IsFreeList 0x4000_2000 two (0x4000_1000 ∷ 0x4000_0000 ∷ []) two-IsFreeList
      (omega arith) (inr (omega arith), (inr (omega arith), tt))

abbrev rest : Kheap
rest = remove_from_free_list 0x4000_1000 three

remove_from_free_list-IsFreeList_example :
    IsFreeList (mem rest) rest.free_list_head (0x4000_2000 ∷ 0x4000_0000 ∷ [])
    × (header (mem rest) 0x4000_1000
        ≡ record (header (mem three) 0x4000_1000) { is_free = false; next_free = 0; prev_free = 0 })
    × All (Rest (mem three) (mem rest)) (0x4000_2000 ∷ 0x4000_0000 ∷ [])
remove_from_free_list-IsFreeList_example =
    remove_from_free_list-IsFreeList 0x4000_1000 three (0x4000_2000 ∷ []) (0x4000_0000 ∷ [])
      three-IsFreeList

-- A heap with two free blocks: at 0x4000_2000 one of 0 bytes, and behind it in the list, at
-- 0x4000_0000, one of 3840 bytes.
abbrev two_free : Kheap
two_free = record {
  pmm = record {
    mem = λ a.
        if a == 0x4000_0001
        then 0x0f
        else if a == 0x4000_0008 || a == 0x4000_2008
        then 1
        else if a == 0x4000_0029
        then 0x20
        else if a == 0x4000_002b || a == 0x4000_2023
        then 0x40
        else 0;
    total_memory = 0;
    free_memory = 0;
    highest_usable_address = 0;
  };
  free_list_head = 0x4000_2000;
  heap_start = 0x4000_0000;
  heap_end = 0x4000_0000;
}

two_free-IsFreeList : IsFreeList (mem two_free) 0x4000_2000 (0x4000_2000 ∷ 0x4000_0000 ∷ [])
unfolding next_free_at prev_free_at is_free_at load
two_free-IsFreeList = record {
  chain = (refl, refl, (refl, refl, refl));
  ptrs = (omega arith, (omega arith, tt));
  spread = ((inr (omega arith), tt), (tt, tt));
  free = (refl, (refl, tt));
}

size_large : size_at (mem two_free) 0x4000_0000 ≡ 3840
unfolding size_at load
size_large = refl

size_small : size_at (mem two_free) 0x4000_2000 ≡ 0
unfolding size_at load
size_small = refl

next_none : next_at (mem two_free) 0x4000_0000 ≡ 0
unfolding next_at load
next_none = refl

align_twenty : align 20 ≡ 24
unfolding align
align_twenty = refl

two_free-IsFound : IsFound two_free 0x4000_0000 (align 20) (0x4000_2000 ∷ []) []
two_free-IsFound = record {
  list = two_free-IsFreeList;
  smaller = (omega (arith, size_small, align_twenty), tt);
  large = omega (arith, size_large, align_twenty);
  bound = omega (arith, size_large);
  clear = (inl (omega (arith, size_large)), tt);
  next_fits = omega (arith, next_none);
  next_meets = (λ ne. absurd (ne next_none), tt);
}

first_fit-fitting_example :
    first_fit 5 (mem two_free) 24 0x4000_2000
    ≡ some (fitting (mem two_free) 24 (0x4000_2000 ∷ 0x4000_0000 ∷ []))
first_fit-fitting_example =
    first_fit-fitting 5 (mem two_free) 24 0x4000_2000 (0x4000_2000 ∷ 0x4000_0000 ∷ [])
      two_free-IsFreeList (omega arith)

abbrev layout : Linker
layout = record {
  kernel_start = 0x4010_0000;
  kernel_end = 0x4014_0000;
  bitmap_start = 0x4012_0000;
  bitmap_end = 0x4014_0000;
}

kmalloc-Allocated_example :
    (h' : Kheap) × (kmalloc layout 5 20 two_free ≡ some (h', 0x4000_0000 + 48))
    × Allocated h' 0x4000_0000
        (align 20)
        (left_list 0x4000_0000 (align 20) (size_at (mem two_free) 0x4000_0000) (0x4000_2000 ∷ []))
kmalloc-Allocated_example =
    kmalloc-Allocated two_free 0x4000_0000 20 (0x4000_2000 ∷ []) [] (omega arith) two_free-IsFound
      layout 5 (omega arith)

align_lem_example : (20 ≤ align 20) × (align 20 < 20 + 8) × (align 20 % 8 ≡ 0)
align_lem_example = align_lem 20 (omega arith)

-- With a block in use at 0x4000_1000, which the free one at 0x4000_2000 is behind.
abbrev in_use : Kheap
in_use = record two_free {
  pmm = record (two_free.pmm) {
    mem = λ a. if a == 0x4000_1011 then 0x20 else if a == 0x4000_1013 then 0x40 else mem two_free a;
  };
}

in_use-IsFreeList : IsFreeList (mem in_use) 0x4000_2000 (0x4000_2000 ∷ 0x4000_0000 ∷ [])
unfolding next_free_at prev_free_at is_free_at load
in_use-IsFreeList = record {
  chain = (refl, refl, (refl, refl, refl));
  ptrs = (omega arith, (omega arith, tt));
  spread = ((inr (omega arith), tt), (tt, tt));
  free = (refl, (refl, tt));
}

last_none : next_at (mem in_use) 0x4000_2000 ≡ 0
unfolding next_at load
last_none = refl

in_use-IsMergeable :
    IsMergeable (mem in_use) 0x4000_2000 0x4000_1000 0x4000_2000 [] (0x4000_0000 ∷ [])
in_use-IsMergeable = record {
  list = in_use-IsFreeList;
  away = (inl (omega arith), (inr (omega arith), tt));
  at = unfold next_at load in refl;
  fits = omega (arith, last_none);
  off = λ ne. absurd (ne last_none);
  meets = (λ ne. absurd (ne last_none), tt);
}

used_block : is_free_at (mem in_use) 0x4000_1000 ≡ false
unfolding is_free_at
used_block = refl

used_last : is_free_at (mem in_use) 0x4000_3000 ≡ false
unfolding is_free_at
used_last = refl

prev_none : (prev_at (mem in_use) 0x4000_1000 ≡ 0) × (prev_at (mem in_use) 0x4000_3000 ≡ 0)
unfolding prev_at load
prev_none = (refl, refl)

next_last : next_at (mem in_use) 0x4000_3000 ≡ 0
unfolding next_at load
next_last = refl

kfree_merges_example :
    IsFreeList
      (mem (kfree (0x4000_1000 + 48) in_use))
      (kfree (0x4000_1000 + 48) in_use).free_list_head
      (0x4000_1000 ∷ 0x4000_0000 ∷ [])
    × (size_at (mem (kfree (0x4000_1000 + 48) in_use)) 0x4000_1000
        ≡ add64 (add64 (size_at (mem in_use) 0x4000_1000) (size_at (mem in_use) 0x4000_2000)) 48)
kfree_merges_example =
    kfree_merges in_use 0x4000_1000 (omega arith) (omega arith) used_block 0x4000_2000 []
      (0x4000_0000 ∷ []) in_use-IsMergeable (inl prev_none.0)

kfree_alone_example :
    IsFreeList
      (mem (kfree (0x4000_3000 + 48) in_use))
      (kfree (0x4000_3000 + 48) in_use).free_list_head
      (0x4000_3000 ∷ 0x4000_2000 ∷ 0x4000_0000 ∷ [])
    × (size_at (mem (kfree (0x4000_3000 + 48) in_use)) 0x4000_3000
        ≡ size_at (mem in_use) 0x4000_3000)
kfree_alone_example =
    kfree_alone in_use 0x4000_3000 (omega arith) (omega arith) used_last
      (0x4000_2000 ∷ 0x4000_0000 ∷ []) in_use-IsFreeList
      (inr (omega arith), (inr (omega arith), tt)) (inl next_last) (inl prev_none.1)
