-- ===== src/Heap/Boot.antt =====
-- `kheap_init` of src/memory/kheap.c with the frame allocator: what the heap holds at boot.
use meringue_os.Prelude.{
  ℕ, zero, suc, ◌+◌, ◌-◌, ◌*◌, ◌≤◌, ◌<◌, ◌≡◌, ◌≢◌, inl, inr, refl, sym, ap, ◌∙◌, true, false, ◌==◌,
  arith, Bool-cases, [], ◌∷◌,
}
use meringue_os.Frames.{Linker, Pmm, page_size, total_frames, frame_addr, alloc_frame}
use meringue_os.Frames.Bitmap.{count_clear_none}
use meringue_os.Frames.Marking.{is_used, IsCounted}
use meringue_os.Frames.Alloc.{IsSafe, Taken, alloc_frame_cases, alloc_frame_sound}
use meringue_os.Heap.{
  Kheap, mem, append_page, pages_needed, expand_loop, join_new, expand_heap, add_to_free_list,
  kheap_init,
}
use meringue_os.Heap.Header.{header_size, size_at}
use meringue_os.Heap.Fields.{header-eq}
use meringue_os.Heap.Segments.{IsFreeList, IsPtr}
use meringue_os.Heap.FreeList.{add_to_free_list-IsFreeList}
use meringue_os.Heap.Links.{link_free_self}
use mathlib.Core.Path.{subst}
use meringue_os.Heap.Grow.{Held, Grown, Grown-first, Grown-next}

-- The frame that `alloc_frame` returns while there is free memory.
record Got (L : Linker) (s : Pmm) : Type 0 where
  frame : ℕ
  below : frame < total_frames
  free : is_used L s frame ≡ false
  lowest : (j : ℕ) → j < frame → is_used L s j ≡ true
  address : (alloc_frame L s).1 ≡ frame_addr frame
  taken : Taken L s frame (alloc_frame L s).0

alloc_frame-Got :
    (L : Linker) (s : Pmm) → IsCounted L s → IsSafe L s → page_size ≤ s.free_memory → Got L s
alloc_frame-Got L s c safe enough = elim (alloc_frame_cases L s c safe) [
  | inl (k, below, free, lowest, at, t) ↦ record {
    frame = k;
    below = below;
    free = free;
    lowest = lowest;
    address = at;
    taken = t;
  }
  | inr (all, e) ↦
      absurd (omega (arith, c.counted, count_clear_none total_frames (is_used L s) all))
]

Held-Taken : (L : Linker) (s s' : Pmm) (k j : ℕ) → Taken L s k s' → Held L s j → Held L s' j
Held-Taken L s s' k j t hd = record {
  below = hd.below;
  used = let u = t.used j hd.below in let v = hd.used in ground arith;
  off = hd.off;
}

Taken-Held :
    (L : Linker) (s s' : Pmm) (k : ℕ)
    → Taken L s k s'
    → IsSafe L s
    → k < total_frames
    → is_used L s k ≡ false
    → Held L s' k
Taken-Held L s s' k t safe below free = record {
  below = below;
  used = let u = t.used k below in ground arith;
  off = safe k below free;
}

-- Taking a frame leaves the pages of the heap alone.
Grown-Taken :
    (L : Linker) (first last k : ℕ) (h : Kheap) (s' : Pmm)
    → Grown L first last h
    → Taken L h.pmm k s'
    → is_used L h.pmm k ≡ false
    → IsCounted L s'
    → IsSafe L s'
    → Grown L first last (record h { pmm = s' })
Grown-Taken L first last k h s' g t free c safe =
    let ne : k ≢ first = λ e. let u = g.one.used in let v = rw e at free in cc in
    let same =
      header-eq (mem h) s'.mem (frame_addr first)
        (λ a w. t.kept a (ground arith) (let o = g.one.off in ground arith)) in
    record {
      counted = c;
      safe = safe;
      one = Held-Taken L h.pmm s' k first t g.one;
      held = Held-Taken L h.pmm s' k last t g.held;
      ends = g.ends;
      starts = g.starts;
      prev = ap (λ r. r.prev) same ∙ g.prev;
      size = ap (λ r. r.size) same ∙ g.size;
      empty = g.empty;
    }

append_page_free : (f : ℕ) (h : Kheap) → (append_page f h).pmm.free_memory ≡ h.pmm.free_memory
unfolding append_page
append_page_free f h = elim (Bool-cases (h.heap_end == 0)) [ inl z ↦ rw z refl | inr n ↦ rw n refl ]

expand_loop-Grown :
    (L : Linker) (first last n : ℕ) (h : Kheap)
    → Grown L first last h
    → n * page_size ≤ h.pmm.free_memory
    → (h' : Kheap) × (expand_loop L n (frame_addr first) h ≡ (h', frame_addr first, true))
      × (last' : ℕ) × Grown L first last' h'
      × (h'.pmm.free_memory + n * page_size ≡ h.pmm.free_memory)
unfolding expand_loop
expand_loop-Grown L first last zero h g enough = (h, refl, last, g, omega arith)
expand_loop-Grown L first last (suc n) h g enough =
    let got = alloc_frame-Got L h.pmm g.counted g.safe (omega arith) in
    let s' = (alloc_frame L h.pmm).0 in
    let (c, safe) = alloc_frame_sound L h.pmm g.counted g.safe in
    let h1 = record h { pmm = s' } in
    let g1 = Grown-Taken L first last got.frame h s' g got.taken got.free c safe in
    let held = Taken-Held L h.pmm s' got.frame got.taken g.safe got.below got.free in
    let not_first : got.frame ≢ first =
      λ e. let u = g.one.used in let v = rw e at (got.free) in cc in
    let not_last : got.frame ≢ last =
      λ e. let u = g.held.used in let v = rw e at (got.free) in cc in
    let g2 = Grown-next L first last got.frame h1 g1 held not_first not_last in
    let less = got.taken.less in
    let same = append_page_free (frame_addr got.frame) h1 in
    let (h', runs, last', done, count) =
      expand_loop-Grown L first got.frame n (append_page (frame_addr got.frame) h1) g2
        (omega (arith, same, less)) in
    let z : (frame_addr got.frame == 0) ≡ false = ground arith in
    let y : (frame_addr first == 0) ≡ false = ground arith in
    (h', rw (got.address, z, y) runs, last', done, omega (arith, count, same, less))

-- Where no block is before it, the new block goes to the front of the free list.
join_new-alone :
    (L : Linker) (first last : ℕ) (h : Kheap)
    → Grown L first last h
    → join_new L (frame_addr first) h ≡ add_to_free_list (frame_addr first) h
unfolding join_new
join_new-alone L first last h g = rw (g.prev) refl

-- From no page, the first that is got is the first of the chain.
expand_loop-first :
    (L : Linker) (n : ℕ) (h : Kheap)
    → IsCounted L h.pmm
    → IsSafe L h.pmm
    → h.heap_end ≡ 0
    → h.free_list_head ≡ 0
    → suc n * page_size ≤ h.pmm.free_memory
    → (got : Got L h.pmm) × (h' : Kheap) × (last : ℕ) × Grown L got.frame last h'
      × (h'.pmm.free_memory + suc n * page_size ≡ h.pmm.free_memory)
      × (expand_loop L (suc n) 0 h ≡ (h', frame_addr got.frame, true))
unfolding expand_loop
expand_loop-first L n h c safe none_yet empty enough =
    let got = alloc_frame-Got L h.pmm c safe (omega arith) in
    let s' = (alloc_frame L h.pmm).0 in
    let (c', safe') = alloc_frame_sound L h.pmm c safe in
    let h1 = record h { pmm = s' } in
    let held = Taken-Held L h.pmm s' got.frame got.taken safe got.below got.free in
    let g1 = Grown-first L got.frame h1 c' safe' held none_yet empty in
    let less = got.taken.less in
    let same = append_page_free (frame_addr got.frame) h1 in
    let (h', runs, last, g, count) =
      expand_loop-Grown L got.frame got.frame n (append_page (frame_addr got.frame) h1) g1
        (omega (arith, same, less)) in
    let z : (frame_addr got.frame == 0) ≡ false = ground arith in
    (got, h', last, g, omega (arith, count, same, less), rw (got.address, z) runs)

boot_pages : pages_needed (page_size * 4) ≡ 5
unfolding pages_needed
boot_pages = refl

expand_heap-first :
    (L : Linker) (h h' : Kheap) (first last : ℕ)
    → Grown L first last h'
    → expand_loop L 5 0 h ≡ (h', frame_addr first, true)
    → expand_heap L (page_size * 4) h ≡ (add_to_free_list (frame_addr first) h', true)
unfolding expand_heap
expand_heap-first L h h' first last g runs =
    let z : (frame_addr first == 0) ≡ false = ground arith in
    rw (boot_pages, runs, z, join_new-alone L first last h' g) refl

-- The free list has the page of frame `k` as its only block, where the heap starts too, and five pages
-- less are free than in `s`.
pub record Booted (s : Pmm) (k : ℕ) (h : Kheap) : Type 0 where
  pub list : IsFreeList (mem h) h.free_list_head (frame_addr k ∷ [])
  pub size : size_at (mem h) (frame_addr k) ≡ page_size - header_size
  pub starts : h.heap_start ≡ frame_addr k
  pub count : h.pmm.free_memory + 5 * page_size ≡ s.free_memory

listed-Booted :
    (L : Linker) (s : Pmm) (k last : ℕ) (h : Kheap)
    → Grown L k last h
    → h.pmm.free_memory + 5 * page_size ≡ s.free_memory
    → Booted s k (add_to_free_list (frame_addr k) h)
unfolding add_to_free_list
listed-Booted L s k last h g count =
    let block = frame_addr k in
    let ptr : IsPtr block = (omega arith, omega (arith, g.one.below)) in
    let none_listed : IsFreeList (mem h) h.free_list_head [] = record {
      chain = g.empty;
      ptrs = tt;
      spread = tt;
      free = tt;
    } in
    let self =
      link_free_self (mem h) h.free_list_head block (omega (arith, g.empty)) ptr.1 (inl g.empty) in
    record {
      list = add_to_free_list-IsFreeList block h [] none_listed ptr tt;
      size = ap (λ r. r.size) self ∙ g.size;
      starts = g.starts;
      count = count;
    }

-- Where `free_memory` counts the free frames, of which there are five and none holds a byte of the
-- bitmap, `kheap_init` takes five pages. The heap starts at the lowest frame that was free, and the free
-- list holds the page of that frame as its only block, of 4048 bytes: the other four are not listed.
pub kheap_init-Booted :
    (L : Linker) (h : Kheap)
    → IsCounted L h.pmm
    → IsSafe L h.pmm
    → 5 * page_size ≤ h.pmm.free_memory
    → (k : ℕ) × (k < total_frames)
      × (is_used L h.pmm k ≡ false)
      × ((j : ℕ) → j < k → is_used L h.pmm j ≡ true)
      × Booted h.pmm k (kheap_init L h)
unfolding kheap_init
kheap_init-Booted L h c safe enough =
    let start = record h { free_list_head = 0; heap_start = 0; heap_end = 0 } in
    let (got, h', last, g, count, runs) = expand_loop-first L 4 start c safe refl refl enough in
    let done : kheap_init L h ≡ add_to_free_list (frame_addr got.frame) h' =
      ap (λ r. r.0) (expand_heap-first L start h' got.frame last g runs) in
    (
      got.frame,
      got.below,
      got.free,
      got.lowest,
      subst (λ x. Booted h.pmm got.frame x) (sym done)
          (listed-Booted L h.pmm got.frame last h' g count),
    )
