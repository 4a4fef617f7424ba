-- ===== src/Heap/Grow.antt =====
-- The loop of `expand_heap` (src/memory/kheap.c) on an empty heap: the pages that it gets from the frame
-- allocator become blocks, the first of which stays where it is.
use meringue_os.Prelude.{
  ℕ, ◌-◌, ◌<◌, ◌≡◌, ◌≢◌, ◌⊎◌, inl, inr, refl, ap, ◌∙◌, true, false, ◌==◌, arith, word_mod,
  Bool-cases, ltb,
}
use meringue_os.Memory.{Mem, IsBytes, within}
use meringue_os.Frames.{Linker, Pmm, page_size, total_frames, frame_addr}
use meringue_os.Frames.Marking.{is_used, IsCounted}
use meringue_os.Frames.Range.{overlaps}
use meringue_os.Frames.Init.{bitmap_bytes}
use meringue_os.Frames.Alloc.{IsSafe}
use meringue_os.Heap.{Kheap, mem, with_mem, append_page}
use meringue_os.Heap.Header.{header_size, size_at, prev_at, set_next}
use meringue_os.Heap.Fields.{Apart, set_next_apart, set_next_self}
use meringue_os.Heap.Expand.{
  page_header, page_header_self, page_header-Apart, page_header_outside, page_header-IsBytes,
  set_next_outside, set_next-IsBytes, is_used-kept, kept-IsCounted, kept-IsSafe,
}

-- Frame `k` is used, and holds no byte of the bitmap.
pub record Held (L : Linker) (s : Pmm) (k : ℕ) : Type 0 where
  pub below : k < total_frames
  pub used : is_used L s k ≡ true
  pub off : overlaps L.bitmap_start bitmap_bytes k ≡ false

-- The heap is a chain of pages from frame `first` to frame `last`, and the free list is empty.
pub record Grown (L : Linker) (first last : ℕ) (h : Kheap) : Type 0 where
  pub counted : IsCounted L h.pmm
  pub safe : IsSafe L h.pmm
  pub one : Held L h.pmm first
  pub held : Held L h.pmm last
  pub ends : h.heap_end ≡ frame_addr last
  pub starts : h.heap_start ≡ frame_addr first
  pub prev : prev_at (mem h) (frame_addr first) ≡ 0
  pub size : size_at (mem h) (frame_addr first) ≡ page_size - header_size
  pub empty : h.free_list_head ≡ 0

frames-Apart : (j k : ℕ) → j ≢ k → Apart (frame_addr j) (frame_addr k)
frames-Apart j k ne = elim (Bool-cases (ltb j k)) [
  | inl y ↦ inl (ground arith)
  | inr n ↦ inr (ground arith)
]

append_page-first :
    (f : ℕ) (h : Kheap)
    → h.heap_end ≡ 0
    → append_page f h
      ≡ record (with_mem h (page_header (mem h) f 0)) { heap_start = f; heap_end = f }
unfolding append_page page_header
append_page-first f h z = rw z refl

append_page-next :
    (f : ℕ) (h : Kheap)
    → (h.heap_end == 0) ≡ false
    → append_page f h
      ≡ record (with_mem h (set_next (page_header (mem h) f h.heap_end) h.heap_end f)) {
        heap_end = f;
      }
unfolding append_page page_header
append_page-next f h n = rw n refl

-- The first page.
pub Grown-first :
    (L : Linker) (k : ℕ) (h : Kheap)
    → IsCounted L h.pmm
    → IsSafe L h.pmm
    → Held L h.pmm k
    → h.heap_end ≡ 0
    → h.free_list_head ≡ 0
    → Grown L k k (append_page (frame_addr k) h)
Grown-first L k h c safe held none_yet empty =
    let f = frame_addr k in
    let same = λ (a : ℕ) (w : within L.bitmap_start bitmap_bytes a ≡ true).
      page_header_outside (mem h) f 0 a (let o = held.off in ground arith) in
    let (size, prev) = page_header_self (mem h) f 0 (omega arith) in
    let kept : Held L (record (h.pmm) { mem = page_header (mem h) f 0 }) k = record {
      below = held.below;
      used = is_used-kept L h.pmm _ same k held.below ∙ held.used;
      off = held.off;
    } in
    rw (append_page-first f h none_yet) (record {
      counted = kept-IsCounted L h.pmm _ same (page_header-IsBytes (mem h) f 0 c.bytes) c;
      safe = kept-IsSafe L h.pmm _ same safe;
      one = kept;
      held = kept;
      ends = refl;
      starts = refl;
      prev = prev;
      size = size;
      empty = empty;
    })

-- A page behind the last.
pub Grown-next :
    (L : Linker) (first last k : ℕ) (h : Kheap)
    → Grown L first last h
    → Held L h.pmm k
    → k ≢ first
    → k ≢ last
    → Grown L first k (append_page (frame_addr k) h)
Grown-next L first last k h g held not_first not_last =
    let f = frame_addr k in
    let e = frame_addr last in
    let m' = page_header (mem h) f e in
    let m'' = set_next m' e f in
    let some_end : (h.heap_end == 0) ≡ false = let at = g.ends in ground arith in
    let same = λ (a : ℕ) (w : within L.bitmap_start bitmap_bytes a ≡ true).
      set_next_outside m' e f a (let o = g.held.off in ground arith)
      ∙ page_header_outside (mem h) f e a (let o = held.off in ground arith) in
    let b : IsBytes m'' =
      set_next-IsBytes m' e f (page_header-IsBytes (mem h) f e g.counted.bytes) in
    let keeps = λ (j : ℕ) (hd : Held L h.pmm j). the_same L h m'' same j hd in
    let mid = page_header-Apart (mem h) f e (frame_addr first) (frames-Apart k first not_first) in
    let (size, prev) =
      beside m' (frame_addr first) e f (omega (arith, held.below)) (far first last) in
    rw (append_page-next f h some_end, g.ends)
      (record {
        counted = kept-IsCounted L h.pmm m'' same b g.counted;
        safe = kept-IsSafe L h.pmm m'' same g.safe;
        one = keeps first g.one;
        held = keeps k held;
        ends = refl;
        starts = g.starts;
        prev = prev ∙ ap (λ r. r.prev) mid ∙ g.prev;
        size = size ∙ ap (λ r. r.size) mid ∙ g.size;
        empty = g.empty;
      })
  where
    the_same :
        (L : Linker) (h : Kheap) (m : Mem)
        → ((a : ℕ) → within L.bitmap_start bitmap_bytes a ≡ true → m a ≡ h.pmm.mem a)
        → (j : ℕ) → Held L h.pmm j
        → Held L (record (h.pmm) { mem = m }) j
    the_same L h m same j hd = record {
      below = hd.below;
      used = is_used-kept L h.pmm m same j hd.below ∙ hd.used;
      off = hd.off;
    }

    far : (i j : ℕ) → (frame_addr i ≡ frame_addr j) ⊎ Apart (frame_addr j) (frame_addr i)
    far i j = elim (Bool-cases (j == i)) [
      | inl y ↦ inl (ground arith)
      | inr n ↦ inr (frames-Apart j i (ground arith))
    ]

    beside :
        (m : Mem) (p q v : ℕ)
        → v < word_mod
        → (p ≡ q) ⊎ Apart q p
        → (size_at (set_next m q v) p ≡ size_at m p) × (prev_at (set_next m q v) p ≡ prev_at m p)
    beside m p q v fits (inl at) =
        let s = set_next_self m q v fits in rw at (ap (λ r. r.size) s, ap (λ r. r.prev) s)
    beside m p q v fits (inr apart) =
        let s = set_next_apart m q p apart v in (ap (λ r. r.size) s, ap (λ r. r.prev) s)
