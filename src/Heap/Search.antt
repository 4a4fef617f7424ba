-- ===== src/Heap/Search.antt =====
-- The searches of `kmalloc` of src/memory/kheap.c, on a free list that is a list of blocks.
use meringue_os.Prelude.{
  ℕ, zero, suc, ◌<◌, ◌≤◌, ◌≡◌, ◌≢◌, refl, false, some, List, [], ◌∷◌, ◌++◌, length, All, arith, leb,
  ◌==◌, if◌then◌else◌, Bool-cases, inl, inr,
}
use meringue_os.Memory.{Mem}
use meringue_os.Heap.{first_fit}
use meringue_os.Heap.Header.{size_at, next_free_at}
use meringue_os.Heap.Segments.{Seg, IsPtr, IsFreeList}

-- The first block that has `size` bytes, or NULL.
abbrev pub fitting : Mem → ℕ → List ℕ → ℕ
fitting m size [] = 0
fitting m size (b ∷ bs) = if leb size (size_at m b) then b else fitting m size bs

first_fit-Seg :
    (fuel : ℕ) (m : Mem) (size prev p : ℕ) (xs : List ℕ)
    → Seg m prev p xs 0
    → All IsPtr xs
    → length xs < fuel
    → first_fit fuel m size p ≡ some (fitting m size xs)
unfolding first_fit
first_fit-Seg zero m size prev p xs s ok h = absurd (omega arith)
first_fit-Seg (suc fuel) m size prev p [] s ok h = ground arith
first_fit-Seg (suc fuel) m size prev p (b ∷ bs) (here, back, rest) (pb, ok) h =
    let ne : b ≢ 0 = pb.0 in
    let z : (b == 0) ≡ false = ground arith in
    let ih = first_fit-Seg fuel m size b (next_free_at m b) bs rest ok (omega arith) in
    rw (here, z, ih)
      (elim (Bool-cases (leb size (size_at m b))) [ inl y ↦ rw y refl | inr n ↦ rw n refl ])

-- On a well-formed free list, with fuel above its length, the search returns the first block of the
-- list that is large enough, and NULL only if no block is.
pub first_fit-fitting :
    (fuel : ℕ) (m : Mem) (size head : ℕ) (xs : List ℕ)
    → IsFreeList m head xs
    → length xs < fuel
    → first_fit fuel m size head ≡ some (fitting m size xs)
first_fit-fitting fuel m size head xs f h = first_fit-Seg fuel m size 0 head xs f.chain f.ptrs h

-- The block that is found has smaller ones before it.
pub fitting_split :
    (m : Mem) (size block : ℕ) (ys zs : List ℕ)
    → All (λ y. size_at m y < size) ys
    → size ≤ size_at m block
    → fitting m size (ys ++ block ∷ zs) ≡ block
fitting_split m size block [] zs small h = ground arith
fitting_split m size block (y ∷ ys) zs (s, small) h =
    let t : leb size (size_at m y) ≡ false = ground arith in
    rw t (fitting_split m size block ys zs small h)
