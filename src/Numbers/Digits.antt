-- ===== src/Numbers/Digits.antt =====
-- What the digit loop of src/lib/stdlib_stubs.c computes: the value of the digits in front, or
-- UINT64_MAX where that does not fit in 64 bits.
use meringue_os.Prelude.{
  ℕ, zero, suc, ◌+◌, ◌*◌, ◌/◌, ◌%◌, ◌≤◌, ◌<◌, ◌≡◌, refl, ap, ◌∙◌, ◌&&◌, ◌||◌, none, some, ◌==◌, ltb,
  List, [], ◌∷◌, length, min, arith, Bool-cases, Option-cases, pair_eq, inl, inr,
}
use native.Mathlib.Nat.{mul-le-mul_right, mod-lt, div-add-mod'}
use meringue_os.Memory.{Mem}
use meringue_os.Strings.Walks.{IsString}
use meringue_os.Numbers.{u64_max, digit_in, skip_digits, digit_loop}

-- The digits at the front of a text, and the number that they spell behind `n`.
unfoldable pub digits : ℕ → List ℕ → List ℕ
digits base [] = []
digits base (c ∷ cs) = elim (digit_in base c) [ none ↦ [] | some d ↦ d ∷ digits base cs ]

digits_stop : (base c : ℕ) (cs : List ℕ) → digit_in base c ≡ none → digits base (c ∷ cs) ≡ []
unfolding digits
digits_stop base c cs e = rw (e, digits)

pub digits_more :
    (base c d : ℕ) (cs : List ℕ)
    → digit_in base c ≡ some d
    → digits base (c ∷ cs) ≡ d ∷ digits base cs
unfolding digits
digits_more base c d cs e = rw (e, digits)

abbrev pub value : ℕ → ℕ → List ℕ → ℕ
value base n [] = n
value base n (d ∷ ds) = value base (n * base + d) ds

pub length-digits : (base : ℕ) (cs : List ℕ) → length (digits base cs) ≤ length cs
unfolding digits
length-digits base [] = omega arith
length-digits base (c ∷ cs) = elim (Option-cases (digit_in base c)) [
  | inl e ↦ rw (digits_stop base c cs e) (omega arith)
  | inr (d, e) ↦ rw (digits_more base c d cs e) (omega (arith, length-digits base cs))
]

le-value : (base n : ℕ) (ds : List ℕ) → 0 < base → n ≤ value base n ds
le-value base n [] h = omega arith
le-value base n (d ∷ ds) h = grind (arith, le-value base (n * base + d) ds h)

overflow_of :
    (base q t r d max : ℕ)
    → q * base + t ≡ max
    → t < base
    → d < base
    → (ltb q r || (r == q && ltb t d)) ≡ ltb max (r * base + d)
overflow_of base q t r d max e h k = elim (Bool-cases (ltb r q)) [
  | inl below ↦
      let le : (r + 1) * base ≤ q * base = mul-le-mul_right base (ground arith) in ground arith
  | inr other ↦ elim (Bool-cases (ltb q r)) [
    | inl above ↦
        let le : (q + 1) * base ≤ r * base = mul-le-mul_right base (ground arith) in ground arith
    | inr same ↦ let eq : r ≡ q = ground arith in rw eq (ground arith)
  ]
]

-- The overflow test is exact.
overflow_test :
    (base r d : ℕ)
    → 0 < base
    → d < base
    → (ltb (u64_max / base) r || (r == u64_max / base && ltb (u64_max % base) d))
      ≡ ltb u64_max (r * base + d)
overflow_test base r d h k =
    overflow_of base (u64_max / base) (u64_max % base) r d u64_max (div-add-mod' u64_max base)
      (mod-lt u64_max h) k

digit_in-lt : (base c d : ℕ) → digit_in base c ≡ some d → d < base
digit_in-lt base c d h = ground arith

skip_digits_lem :
    (fuel : ℕ) (m : Mem) (base p : ℕ) (cs : List ℕ)
    → IsString m (p + 1) cs
    → length cs < fuel
    → skip_digits fuel m base p ≡ some (p + 1 + length (digits base cs))
unfolding skip_digits
skip_digits_lem zero m base p cs s h = absurd (omega arith)
skip_digits_lem (suc fuel) m base p [] s h =
    unfold digits in rw (s, skip_digits) (ap some (omega arith))
skip_digits_lem (suc fuel) m base p (c ∷ cs) s h =
    rw (s.0, skip_digits)
      (elim (Option-cases (digit_in base c)) [
        | inl e ↦ rw (e, digits_stop base c cs e) (ap some (omega arith))
        | inr (d, e) ↦
            rw (e, digits_more base c d cs e)
              (skip_digits_lem fuel m base (p + 1) cs s.2 (omega arith) ∙ ap some (omega arith))
      ])

-- The loop passes over all digits in front, and returns their value, cut off at UINT64_MAX.
pub digit_loop-value :
    (fuel : ℕ) (m : Mem) (base p r : ℕ) (cs : List ℕ)
    → 0 < base
    → r ≤ u64_max
    → IsString m p cs
    → length cs < fuel
    → digit_loop fuel m base p r
      ≡ some (min (value base r (digits base cs)) u64_max, p + length (digits base cs))
unfolding digit_loop
digit_loop-value zero m base p r cs b fits s h = absurd (omega arith)
digit_loop-value (suc fuel) m base p r [] b fits s h =
    unfold digits in rw (s, digit_loop) (pair_eq (omega arith) (omega arith))
digit_loop-value (suc fuel) m base p r (c ∷ cs) b fits s h =
    rw (s.0, digit_loop)
      (elim (Option-cases (digit_in base c)) [
        | inl e ↦ rw (e, digits_stop base c cs e) (pair_eq (omega arith) (omega arith))
        | inr (d, e) ↦
            let small = digit_in-lt base c d e in
            let test = overflow_test base r d b small in
            rw (e, digits_more base c d cs e, test)
              (elim (Bool-cases (ltb u64_max (r * base + d))) [
                | inl over ↦
                    let more = le-value base (r * base + d) (digits base cs) b in
                    rw (over, skip_digits_lem fuel m base p cs s.2 (omega arith))
                      (pair_eq (ground arith) (omega arith))
                | inr ok ↦ rw ok (
                    digit_loop-value fuel m base (p + 1) (r * base + d) cs b (ground arith) s.2
                      (omega arith)
                    ∙ pair_eq refl (omega arith))
              ])
      ])
