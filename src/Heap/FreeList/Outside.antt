-- ===== src/Heap/FreeList/Outside.antt =====
-- `remove_from_free_list` of src/memory/kheap.c leaves the headers alone that are not of the list.
use meringue_os.Prelude.{
  ℕ, ◌≡◌, List, ◌∷◌, ◌++◌, last_or, first_or, All, All-left, All-right, All-mono,
}
use meringue_os.Heap.{Kheap, mem, remove_from_free_list}
use meringue_os.Heap.Fields.{header, Apart}
use meringue_os.Heap.Links.{Apart-sym, unlink-Apart}
use meringue_os.Heap.Segments.{IsFreeList}
use meringue_os.Heap.FreeList.{last-Aside, first-Aside, ptrs_left, ptrs_right, block-IsLinked}

pub remove_from_free_list-outside :
    (block q : ℕ) (h : Kheap) (ys zs : List ℕ)
    → IsFreeList (mem h) h.free_list_head (ys ++ block ∷ zs)
    → All (Apart q) (ys ++ block ∷ zs)
    → header (mem (remove_from_free_list block h)) q ≡ header (mem h) q
unfolding remove_from_free_list
remove_from_free_list-outside block q h ys zs f apart =
    let m = mem h in
    let head = h.free_list_head in
    let right = All-right (Apart q) ys (block ∷ zs) apart in
    unlink-Apart m block (last_or 0 ys) (first_or 0 zs) (block-IsLinked m head block ys zs f) q
      (last-Aside ys q (ptrs_left m head block ys zs f)
        (All-mono _ _ ys (λ y a. Apart-sym q y a) (All-left (Apart q) ys (block ∷ zs) apart)))
      (first-Aside zs q (ptrs_right m head block ys zs f) right.1) (Apart-sym q block right.0)
