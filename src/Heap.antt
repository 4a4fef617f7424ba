-- ===== src/Heap.antt =====
-- The kernel heap, src/memory/kheap.c. Block headers lie in memory; NULL is 0. What is logged is left
-- out. The search of the free list runs on fuel: `none` means that it ran out, as it does where the
-- list is longer, or has a cycle, on which the code would not return.
pub mod Header
pub mod Fields
pub mod Links
pub mod Segments
pub mod Expand
pub mod Grow
pub mod Boot
pub mod FreeList
pub mod Search
pub mod Malloc
pub mod Coalesce
pub mod Free
mod Tests
use meringue_os.Prelude.{
  ℕ, zero, suc, ◌+◌, ◌-◌, ◌*◌, ◌/◌, ◌%◌, Bool, true, false, ◌&&◌, ◌||◌, not, Option, none, some,
  leb, ltb, ◌==◌, if◌then◌else◌, word_mod, add64, sub64,
}
use meringue_os.Memory.{Mem, memset}
use meringue_os.Frames.{Linker, Pmm, alloc_frame, page_size}
use Header.{
  header_size, size_at, is_free_at, next_at, prev_at, next_free_at, prev_free_at, set_size,
  set_is_free, set_next, set_prev, set_next_free, set_prev_free,
}

-- HEAP_MIN_BLOCK_SIZE
abbrev pub min_block_size : ℕ
min_block_size = header_size * 2

-- The frame allocator, in whose memory the blocks lie, and the static variables.
pub record Kheap : Type 0 where
  pub pmm : Pmm
  pub free_list_head : ℕ
  pub heap_start : ℕ
  pub heap_end : ℕ

abbrev pub mem : Kheap → Mem
mem h = h.pmm.mem

abbrev pub with_mem : Kheap → Mem → Kheap
with_mem h m = record h { pmm = record (h.pmm) { mem = m } }

-- The writes of `add_to_free_list`, where `head` heads the list.
unfoldable pub link_free : Mem → ℕ → ℕ → Mem
link_free m head block =
    let m = set_is_free m block true in
    let m = set_next_free m block head in
    let m = set_prev_free m block 0 in if not (head == 0) then set_prev_free m head block else m

unfoldable pub add_to_free_list : ℕ → Kheap → Kheap
add_to_free_list block h = record (with_mem h (link_free (mem h) h.free_list_head block)) {
  free_list_head = block;
}

-- The writes of `remove_from_free_list` to the neighbours, and then to the block.
unfoldable pub bypass : Mem → ℕ → Mem
bypass m block =
    let m' =
      if not (prev_free_at m block == 0)
      then set_next_free m (prev_free_at m block) (next_free_at m block)
      else m in
    if not (next_free_at m' block == 0)
    then set_prev_free m' (next_free_at m' block) (prev_free_at m' block)
    else m'

unfoldable pub unlink : Mem → ℕ → Mem
unlink m block =
    let m = bypass m block in
    let m = set_is_free m block false in let m = set_next_free m block 0 in set_prev_free m block 0

unfoldable pub remove_from_free_list : ℕ → Kheap → Kheap
remove_from_free_list block h = record (with_mem h (unlink (mem h) block)) {
  free_list_head =
      if not (prev_free_at (mem h) block == 0)
      then h.free_list_head
      else next_free_at (mem h) block;
}

-- What the loop of `expand_heap` does with the frame that it got.
unfoldable pub append_page : ℕ → Kheap → Kheap
append_page frame h =
    let m = set_size (mem h) frame (page_size - header_size) in
    let m = set_is_free m frame true in
    let m = set_next m frame 0 in
    if not (h.heap_end == 0)
    then record (with_mem h (set_next (set_prev m frame h.heap_end) h.heap_end frame)) {
      heap_end = frame;
    }
    else record (with_mem h (set_prev m frame 0)) { heap_start = frame; heap_end = frame }

-- The pages that are asked for.
unfoldable pub pages_needed : ℕ → ℕ
pages_needed min_expand_size =
    let pages = (min_expand_size + header_size + page_size - 1) % word_mod / page_size in
    if pages == 0 then 1 else pages

module _ (L : Linker) where
  -- `n` rounds; the result is whether all frames were got, with the first new block.
  unfoldable pub expand_loop : ℕ → ℕ → Kheap → Kheap × ℕ × Bool
  expand_loop zero new_block h = (h, new_block, true)
  expand_loop (suc n) new_block h =
      let (pmm', frame) = alloc_frame L h.pmm in
      let h' = record h { pmm = pmm' } in
      let rest =
        expand_loop n (if new_block == 0 then frame else new_block) (append_page frame h') in
      if frame == 0 then (h', new_block, false) else rest

  -- The end of `expand_heap`: the first new block joins the block before it, if that is free.
  unfoldable pub join_new : ℕ → Kheap → Kheap
  join_new new_block h =
      let prev_block = prev_at (mem h) new_block in
      if not (prev_block == 0) && is_free_at (mem h) prev_block
      then (let h = remove_from_free_list prev_block h in
          let m =
            set_size (mem h) prev_block (
              add64 (add64 (size_at (mem h) prev_block) (size_at (mem h) new_block)) header_size) in
          let m = set_next m prev_block (next_at m new_block) in
          let m =
            if not (next_at m new_block == 0)
            then set_prev m (next_at m new_block) prev_block
            else m in
          let h = record (with_mem h m) {
            heap_end = if h.heap_end == new_block then prev_block else h.heap_end;
          } in
          add_to_free_list prev_block h)
      else add_to_free_list new_block h

  unfoldable pub expand_heap : ℕ → Kheap → Kheap × Bool
  expand_heap min_expand_size h =
      let (h', new_block, got) = expand_loop (pages_needed min_expand_size) 0 h in
      if not got
      then (h', false)
      else if new_block == 0
      then (h', false)
      else (join_new new_block h', true)

-- `low` takes over the space of `high`, the block after it.
unfoldable pub absorb : ℕ → ℕ → Kheap → Kheap
absorb low high h =
    let m = mem h in
    let m = set_size m low (add64 (add64 (size_at m low) (size_at m high)) header_size) in
    let m = set_next m low (next_at m high) in
    let m = if not (next_at m low == 0) then set_prev m (next_at m low) low else m in
    record (with_mem h (memset m high 0 header_size)) {
      heap_end = if h.heap_end == high then low else h.heap_end;
    }

-- The two halves of `coalesce`; the second returns the block that it ends with.
unfoldable pub coalesce_next : ℕ → Kheap → Kheap
coalesce_next block h =
    let next_block = next_at (mem h) block in
    if not (next_block == 0) && is_free_at (mem h) next_block
    then absorb block next_block (remove_from_free_list next_block h)
    else h

unfoldable pub coalesce_prev : ℕ → Kheap → Kheap × ℕ
coalesce_prev block h =
    let prev_block = prev_at (mem h) block in
    if not (prev_block == 0) && is_free_at (mem h) prev_block
    then (absorb prev_block block (remove_from_free_list prev_block h), prev_block)
    else (h, block)

unfoldable pub coalesce : ℕ → Kheap → Kheap × ℕ
coalesce block h =
    if block == 0 || not (is_free_at (mem h) block)
    then (h, block)
    else coalesce_prev block (coalesce_next block h)

unfoldable pub kheap_init : Linker → Kheap → Kheap
kheap_init L h =
    (expand_heap L (page_size * 4)
      (record h { free_list_head = 0; heap_start = 0; heap_end = 0 })).0

-- The search for the first block of the free list that is large enough; NULL where there is none.
unfoldable pub first_fit : ℕ → Mem → ℕ → ℕ → Option ℕ
first_fit zero m size current_free = none
first_fit (suc fuel) m size current_free =
    let rest = first_fit fuel m size (next_free_at m current_free) in
    if current_free == 0
    then some 0
    else if leb size (size_at m current_free)
    then some current_free
    else rest

-- (size + alignment - 1) & ~(alignment - 1), for an alignment of 8: the last three bits are cleared.
unfoldable pub align : ℕ → ℕ
align size = add64 size 7 - add64 size 7 % 8

-- The block at `block` keeps `size` bytes; a new free block takes the rest.
unfoldable pub split : ℕ → ℕ → Kheap → Kheap
split block size h =
    let rest = block + header_size + size in
    let m = mem h in
    let m = set_size m rest (sub64 (sub64 (size_at m block) size) header_size) in
    let m = set_is_free m rest true in
    let m = set_next m rest (next_at m block) in
    let m = set_prev m rest block in
    let last = next_at m rest == 0 in
    let m = if last then m else set_prev m (next_at m rest) rest in
    let m = set_size m block size in
    let m = set_next m block rest in
    add_to_free_list rest (record (with_mem h m) { heap_end = if last then rest else h.heap_end })

-- What `kmalloc` does with the block that it found.
unfoldable pub allocate : ℕ → ℕ → Kheap → Kheap × ℕ
allocate best_fit size h =
    let h = remove_from_free_list best_fit h in
    let h =
      if leb (add64 size min_block_size) (size_at (mem h) best_fit)
      then split best_fit size h
      else h in
    let m = set_is_free (mem h) best_fit false in
    let data_ptr = best_fit + header_size in
    (with_mem h (memset m data_ptr 0 (size_at m best_fit)), data_ptr)

-- The second search, after the heap was expanded.
unfoldable pub retry : ℕ → ℕ → Kheap → Option (Kheap × ℕ)
retry fuel size h = elim (first_fit fuel (mem h) size h.free_list_head) [
  | none ↦ none
  | some best_fit ↦ if best_fit == 0 then some (h, 0) else some (allocate best_fit size h)
]

module _ (L : Linker) where
  -- `size` is aligned here.
  unfoldable pub find_block : ℕ → ℕ → Kheap → Option (Kheap × ℕ)
  find_block fuel size h = elim (first_fit fuel (mem h) size h.free_list_head) [
    | none ↦ none
    | some best_fit ↦
        let (h', grown) = expand_heap L (add64 size header_size) h in
        if not (best_fit == 0)
        then some (allocate best_fit size h)
        else if not grown
        then some (h', 0)
        else retry fuel size h'
  ]

  unfoldable pub kmalloc : ℕ → ℕ → Kheap → Option (Kheap × ℕ)
  kmalloc fuel size h = if size == 0 then some (h, 0) else find_block fuel (align size) h

unfoldable pub kfree : ℕ → Kheap → Kheap
kfree ptr h =
    let block = sub64 ptr header_size in
    if ptr == 0
    then h
    else if is_free_at (mem h) block
    then h
    else (let (h', coalesced_block) =
          coalesce block (with_mem h (set_is_free (mem h) block true)) in
        add_to_free_list coalesced_block h')
