-- ===== src/Heap/Segments.antt =====
-- The free list of src/memory/kheap.c as a sequence of block addresses: segments of the doubly linked
-- list, and what changes of memory keep them.
use meringue_os.Prelude.{
  ℕ, ◌<◌, ◌≡◌, ◌≢◌, refl, ap, ◌∙◌, List, [], ◌∷◌, ◌++◌, true, word_mod, first_or, last_or, All,
  Pairs,
}
use meringue_os.Memory.{Mem}
use meringue_os.Heap.Header.{next_free_at, prev_free_at, is_free_at}
use meringue_os.Heap.Fields.{header, Apart}

-- From `p` the `next_free` pointers lead through `xs` to `stop`; each block points back to the one
-- before it, and the first to `prev`.
abbrev pub Seg : Mem → ℕ → ℕ → List ℕ → ℕ → Type 0
Seg m prev p [] stop = p ≡ stop
Seg m prev p (b ∷ bs) stop =
    (p ≡ b) × (prev_free_at m b ≡ prev) × Seg m b (next_free_at m b) bs stop

-- `k` has the headers of `m` at `xs`.
abbrev pub Same : Mem → Mem → List ℕ → Type 0
Same m k = All (λ b. header k b ≡ header m b)

pub Seg-Same :
    (m k : Mem) (prev p : ℕ) (xs : List ℕ) (stop : ℕ)
    → Same m k xs
    → Seg m prev p xs stop
    → Seg k prev p xs stop
Seg-Same m k prev p [] stop same s = s
Seg-Same m k prev p (b ∷ bs) stop (e, same) (here, back, rest) =
    let next : next_free_at k b ≡ next_free_at m b = ap (λ r. r.next_free) e in
    (
      here,
      ap (λ r. r.prev_free) e ∙ back,
      rw next (Seg-Same m k b (next_free_at m b) bs stop same rest),
    )

-- A segment is cut at any place, and two that meet are joined.
pub Seg-cut :
    (m : Mem) (prev p : ℕ) (xs ys : List ℕ) (stop : ℕ)
    → Seg m prev p (xs ++ ys) stop
    → Seg m prev p xs (first_or stop ys) × Seg m (last_or prev xs) (first_or stop ys) ys stop
Seg-cut m prev p [] [] stop s = (s, refl)
Seg-cut m prev p [] (y ∷ ys) stop (here, back, rest) = (here, (refl, back, rest))
Seg-cut m prev p (x ∷ xs) ys stop (here, back, rest) =
    let (left, right) = Seg-cut m x (next_free_at m x) xs ys stop rest in
    ((here, back, left), right)

pub Seg-join :
    (m : Mem) (prev p : ℕ) (xs ys : List ℕ) (stop : ℕ)
    → Seg m prev p xs (first_or stop ys)
    → Seg m (last_or prev xs) (first_or stop ys) ys stop
    → Seg m prev p (xs ++ ys) stop
Seg-join m prev p [] [] stop s t = s ∙ t
Seg-join m prev p [] (y ∷ ys) stop s (here, back, rest) = (s, back, rest)
Seg-join m prev p (x ∷ xs) ys stop (here, back, rest) t =
    (here, back, Seg-join m x (next_free_at m x) xs ys stop rest t)

-- All headers of `x ∷ xs` stay but that of the last block, whose `next_free` becomes `stop`.
abbrev pub Retargeted : Mem → Mem → ℕ → ℕ → List ℕ → Type 0
Retargeted m k stop x [] = header k x ≡ record (header m x) { next_free = stop }
Retargeted m k stop x (y ∷ ys) = (header k x ≡ header m x) × Retargeted m k stop y ys

pub Seg-Retargeted :
    (m k : Mem) (prev p x : ℕ) (xs : List ℕ) (old stop : ℕ)
    → Retargeted m k stop x xs
    → Seg m prev p (x ∷ xs) old
    → Seg k prev p (x ∷ xs) stop
Seg-Retargeted m k prev p x [] old stop e (here, back, rest) =
    (here, ap (λ r. r.prev_free) e ∙ back, ap (λ r. r.next_free) e)
Seg-Retargeted m k prev p x (y ∷ ys) old stop (e, es) (here, back, rest) =
    let next : next_free_at k x ≡ next_free_at m x = ap (λ r. r.next_free) e in
    (
      here,
      ap (λ r. r.prev_free) e ∙ back,
      rw next (Seg-Retargeted m k x (next_free_at m x) y ys old stop es rest),
    )

-- The first block of a segment gets another `prev_free`.
pub Seg-reprev :
    (m k : Mem) (old prev p x : ℕ) (xs : List ℕ) (stop : ℕ)
    → header k x ≡ record (header m x) { prev_free = prev }
    → Same m k xs
    → Seg m old p (x ∷ xs) stop
    → Seg k prev p (x ∷ xs) stop
Seg-reprev m k old prev p x xs stop e same (here, back, rest) =
    let next : next_free_at k x ≡ next_free_at m x = ap (λ r. r.next_free) e in
    (here, ap (λ r. r.prev_free) e, rw next (Seg-Same m k x (next_free_at m x) xs stop same rest))

-- An address that a block header can have.
abbrev pub IsPtr : ℕ → Type 0
IsPtr b = (b ≢ 0) × (b < word_mod)

-- The free list that `head` heads holds the blocks `xs`, in this order.
pub record IsFreeList (m : Mem) (head : ℕ) (xs : List ℕ) : Type 0 where
  pub chain : Seg m 0 head xs 0
  pub ptrs : All IsPtr xs
  pub spread : Pairs Apart xs
  pub free : All (λ b. is_free_at m b ≡ true) xs
