-- ===== src/Heap/Expand.antt =====
-- `expand_heap` of src/memory/kheap.c: the header of a page that is added, and the frame allocator
-- beside it.
use meringue_os.Prelude.{
  ℕ, ◌+◌, ◌-◌, ◌*◌, ◌/◌, ◌<◌, ◌≡◌, refl, sym, ap, ◌∙◌, true, false, arith, word_mod,
}
use meringue_os.Memory.{Mem, IsBytes, write, write-IsBytes, within}
use meringue_os.Memory.Access.{store_outside, store-IsBytes}
use meringue_os.Frames.{Linker, Pmm, test_bit, page_size, total_frames}
use meringue_os.Frames.Bitmap.{count_clear-eq}
use meringue_os.Frames.Marking.{is_used, IsCounted}
use meringue_os.Frames.Init.{bitmap_bytes}
use meringue_os.Frames.Alloc.{IsSafe}
use meringue_os.Heap.Header.{
  header_size, size_at, prev_at, set_size, set_is_free, set_next, set_prev,
}
use meringue_os.Heap.Fields.{
  header, Apart, set_size_apart, set_is_free_apart, set_next_apart, set_prev_apart, set_size_self,
  set_is_free_self, set_next_self, set_prev_self,
}

-- The writes to the header of a new page at `f`, behind the block `e`.
unfoldable pub page_header : Mem → ℕ → ℕ → Mem
page_header m f e =
    set_prev (set_next (set_is_free (set_size m f (page_size - header_size)) f true) f 0) f e

module _ (m : Mem) (f e : ℕ) where
  pub page_header_self :
      e < word_mod
      → (size_at (page_header m f e) f ≡ page_size - header_size)
        × (prev_at (page_header m f e) f ≡ e)
  unfolding page_header
  page_header_self fits =
      let m1 = set_size m f (page_size - header_size) in
      let m2 = set_is_free m1 f true in
      let m3 = set_next m2 f 0 in
      let a = set_size_self m f (page_size - header_size) (omega arith) in
      let b = set_is_free_self m1 f true in
      let c = set_next_self m2 f 0 (omega arith) in
      let d = set_prev_self m3 f e fits in
      (
        ap (λ r. r.size) d ∙ ap (λ r. r.size) c ∙ ap (λ r. r.size) b ∙ ap (λ r. r.size) a,
        ap (λ r. r.prev) d,
      )

  pub page_header-Apart : (q : ℕ) → Apart f q → header (page_header m f e) q ≡ header m q
  unfolding page_header
  page_header-Apart q apart =
      let m1 = set_size m f (page_size - header_size) in
      let m2 = set_is_free m1 f true in
      let m3 = set_next m2 f 0 in
      set_prev_apart m3 f q apart e
      ∙ set_next_apart m2 f q apart 0
      ∙ set_is_free_apart m1 f q apart true
      ∙ set_size_apart m f q apart (page_size - header_size)

  pub page_header_outside : (a : ℕ) → within f header_size a ≡ false → page_header m f e a ≡ m a
  unfolding page_header set_prev set_next set_is_free set_size write
  page_header_outside a o =
      store_outside _ (f + 24) 8 e a (ground arith)
      ∙ store_outside _ (f + 16) 8 0 a (ground arith)
      ∙ ground (arith, store_outside m (f + 0) 8 (page_size - header_size) a (ground arith))

  pub page_header-IsBytes : IsBytes m → IsBytes (page_header m f e)
  unfolding page_header set_prev set_next set_is_free set_size
  page_header-IsBytes b = store-IsBytes _ (f + 24) 8 e (
      store-IsBytes _ (f + 16) 8 0
        (write-IsBytes _ (f + 8) 1 (store-IsBytes m (f + 0) 8 (page_size - header_size) b)))

pub set_next_outside :
    (m : Mem) (p v a : ℕ) → within p header_size a ≡ false → set_next m p v a ≡ m a
unfolding set_next
set_next_outside m p v a o = store_outside m (p + 16) 8 v a (ground arith)

pub set_next-IsBytes : (m : Mem) (p v : ℕ) → IsBytes m → IsBytes (set_next m p v)
unfolding set_next
set_next-IsBytes m p v b = store-IsBytes m (p + 16) 8 v b

-- The frame allocator keeps its state where no byte of the bitmap changes.
module _ (L : Linker) (s : Pmm) (k : Mem)
    (same : (a : ℕ) → within L.bitmap_start bitmap_bytes a ≡ true → k a ≡ s.mem a) where
  pub is_used-kept : (j : ℕ) → j < total_frames → is_used L (record s { mem = k }) j ≡ is_used L s j
  unfolding test_bit
  is_used-kept j h = rw (same (L.bitmap_start + j / 8) (ground arith)) refl

  pub kept-IsCounted : IsBytes k → IsCounted L s → IsCounted L (record s { mem = k })
  kept-IsCounted b c = record {
    bytes = b;
    counted =
        c.counted ∙ ap (λ n. page_size * n) (sym (count_clear-eq total_frames _ _ is_used-kept));
  }

  pub kept-IsSafe : IsSafe L s → IsSafe L (record s { mem = k })
  kept-IsSafe safe j h free = safe j h (sym (is_used-kept j h) ∙ free)
