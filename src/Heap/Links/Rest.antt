-- ===== src/Heap/Links/Rest.antt =====
-- Linking and unlinking change the links of the free list only: the sizes, the physical order and
-- the flags of the other blocks stay.
use meringue_os.Prelude.{
  ℕ, ◌<◌, ◌≡◌, ◌≢◌, ◌⊎◌, inl, inr, refl, ap, ◌∙◌, not, ◌==◌, arith, if◌then◌else◌, word_mod,
  Bool-cases,
}
use mathlib.Core.Path.{subst}
use meringue_os.Memory.{Mem}
use meringue_os.Heap.{link_free, unlink}
use meringue_os.Heap.Header.{size_at, is_free_at, next_at, prev_at, set_next_free, set_prev_free}
use meringue_os.Heap.Fields.{
  header, Apart, set_next_free_apart, set_prev_free_apart, set_next_free_self, set_prev_free_self,
}
use meringue_os.Heap.Links.{IsLinked, three, three-Apart, forward, both, cleared-Apart, unlink_lem}

-- `k` has the header at `q` that `m` has, but for its links in the free list.
abbrev pub Rest : Mem → Mem → ℕ → Type 0
Rest m k q =
    (size_at k q ≡ size_at m q)
    × (next_at k q ≡ next_at m q)
    × (prev_at k q ≡ prev_at m q)
    × (is_free_at k q ≡ is_free_at m q)

pub Rest-trans : (a b c : Mem) (q : ℕ) → Rest a b q → Rest b c q → Rest a c q
Rest-trans a b c q (s, n, p, f) (s', n', p', f') = (s' ∙ s, n' ∙ n, p' ∙ p, f' ∙ f)

pub Rest-header : (m k : Mem) (q : ℕ) → header k q ≡ header m q → Rest m k q
Rest-header m k q e =
    (ap (λ r. r.size) e, ap (λ r. r.next) e, ap (λ r. r.prev) e, ap (λ r. r.is_free) e)

-- The same header or another one that shares no byte.
abbrev pub Meets : ℕ → ℕ → Type 0
Meets p q = (p ≡ q) ⊎ Apart p q

module _ (m : Mem) (p q v : ℕ) (fits : v < word_mod) where
  set_next_free-Rest : Meets p q → Rest m (set_next_free m p v) q
  set_next_free-Rest (inl e) =
      let h = set_next_free_self m p v fits in
      subst (λ t. Rest m (set_next_free m p v) t) e
        (ap (λ r. r.size) h, ap (λ r. r.next) h, ap (λ r. r.prev) h, ap (λ r. r.is_free) h)
  set_next_free-Rest (inr a) = Rest-header m _ q (set_next_free_apart m p q a v)

  set_prev_free-Rest : Meets p q → Rest m (set_prev_free m p v) q
  set_prev_free-Rest (inl e) =
      let h = set_prev_free_self m p v fits in
      subst (λ t. Rest m (set_prev_free m p v) t) e
        (ap (λ r. r.size) h, ap (λ r. r.next) h, ap (λ r. r.prev) h, ap (λ r. r.is_free) h)
  set_prev_free-Rest (inr a) = Rest-header m _ q (set_prev_free_apart m p q a v)

-- A write that is made only if `p` is not NULL.
guarded-Rest :
    (m k : Mem) (p q : ℕ) → (p ≢ 0 → Rest m k q) → Rest m (if not (p == 0) then k else m) q
guarded-Rest m k p q h = elim (Bool-cases (p == 0)) [
  | inl z ↦ rw z (refl, refl, refl, refl)
  | inr n ↦ rw n (h (ground arith))
]

module _ (m : Mem) (block pf nf : ℕ) (l : IsLinked m block pf nf) where
  pub unlink-Rest :
      (q : ℕ)
      → Apart block q
      → (pf ≢ 0 → Meets pf q)
      → (nf ≢ 0 → Meets nf q)
      → Rest m (unlink m block) q
  unlink-Rest q apart mp mn =
      let one : Rest m (forward m block pf nf l) q =
        unfold forward in
        guarded-Rest m (set_next_free m pf nf) pf q
          (λ ne. set_next_free-Rest m pf q nf l.next_fits (mp ne)) in
      let two : Rest (forward m block pf nf l) (both m block pf nf l) q =
        unfold both in
        guarded-Rest (forward m block pf nf l) (set_prev_free (forward m block pf nf l) nf pf) nf q
          (λ ne. set_prev_free-Rest (forward m block pf nf l) nf q pf l.prev_fits (mn ne)) in
      rw (unlink_lem m block pf nf l) (
        Rest-trans m (both m block pf nf l) _ q (Rest-trans m (forward m block pf nf l) _ q one two)
          (Rest-header _ _ q (cleared-Apart m block pf nf l (both m block pf nf l) q apart)))

pub link_free-Rest :
    (m : Mem) (head block q : ℕ)
    → head < word_mod
    → block < word_mod
    → Apart block q
    → (head ≢ 0 → Meets head q)
    → Rest m (link_free m head block) q
unfolding link_free three
link_free-Rest m head block q hh hb apart mh =
    let t = three m head block hh hb in
    Rest-trans m t _ q (Rest-header m t q (three-Apart m head block hh hb q apart)) (
      guarded-Rest t (set_prev_free t head block) head q
        (λ ne. set_prev_free-Rest t head q block hb (mh ne)))
