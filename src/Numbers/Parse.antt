-- ===== src/Numbers/Parse.antt =====
-- `simple_strtoull` of src/lib/stdlib_stubs.c against a description on texts.
use meringue_os.Prelude.{
  ℕ, zero, suc, ◌+◌, ◌-◌, ◌≤◌, ◌<◌, ◌≡◌, refl, ◌∙◌, Bool, true, false, ◌&&◌, ◌||◌, some, ◌==◌, ltb,
  if◌then◌else◌, List, [], ◌∷◌, length, min, arith, Bool-cases, pair_eq, inl, inr,
}
use meringue_os.Memory.{Mem}
use meringue_os.Strings.Walks.{IsString}
use meringue_os.Numbers.{
  u64_max, is_space, skip_space, skip_sign, pick_base, digit_loop, simple_strtoull,
}
use meringue_os.Numbers.Digits.{digits, value, length-digits, digit_loop-value}

-- A text without its leading white space, and without a sign.
abbrev pub after_space : List ℕ → List ℕ
after_space [] = []
after_space (c ∷ cs) = if is_space c then after_space cs else c ∷ cs

abbrev pub after_sign : List ℕ → List ℕ
after_sign [] = []
after_sign (c ∷ cs) = if c == b'+' || c == b'-' then cs else c ∷ cs

-- Whether a text begins with 0x or 0X, and what follows.
abbrev pub is_hex : List ℕ → Bool
is_hex [] = false
is_hex (c ∷ []) = false
is_hex (c ∷ d ∷ cs) = c == b'0' && (d == b'x' || d == b'X')

abbrev pub after_two : List ℕ → List ℕ
after_two [] = []
after_two (c ∷ []) = []
after_two (c ∷ d ∷ cs) = cs

-- The base that the digits of a text are read in, and where they begin.
abbrev pub radix : ℕ → List ℕ → ℕ
radix base cs =
    if (base == 0 || base == 16) && is_hex cs then 16 else if base == 0 then 10 else base

abbrev pub body : ℕ → List ℕ → List ℕ
body base cs = if (base == 0 || base == 16) && is_hex cs then after_two cs else cs

-- `q` points at the part `ds` of the string `cs` at `p`, which ends where `cs` ends.
abbrev PartAt : Mem → ℕ → List ℕ → ℕ → List ℕ → Type 0
PartAt m p cs q ds = IsString m q ds × (q + length ds ≡ p + length cs)

skip_space_lem :
    (fuel : ℕ) (m : Mem) (p : ℕ) (cs : List ℕ)
    → IsString m p cs
    → length cs < fuel
    → (q : ℕ) × (skip_space fuel m p ≡ some q) × PartAt m p cs q (after_space cs)
unfolding skip_space
skip_space_lem zero m p cs s h = absurd (omega arith)
skip_space_lem (suc fuel) m p [] s h = (p, rw (s, skip_space), (s, refl))
skip_space_lem (suc fuel) m p (c ∷ cs) s h = elim (Bool-cases (is_space c)) [
  | inl y ↦
      let (q, e, (t, l)) = skip_space_lem fuel m (p + 1) cs s.2 (omega arith) in
      (q, rw (s.0, skip_space, y) e, rw y (t, omega arith))
  | inr n ↦ (p, rw (s.0, skip_space, n), rw n (s, refl))
]

skip_sign_lem :
    (m : Mem) (p : ℕ) (cs : List ℕ)
    → IsString m p cs
    → PartAt m p cs (skip_sign m p) (after_sign cs)
unfolding skip_sign
skip_sign_lem m p [] s = rw s (s, refl)
skip_sign_lem m p (c ∷ cs) s = elim (Bool-cases (c == b'+')) [
  | inl plus ↦ rw (s.0, plus) (s.2, omega arith)
  | inr n ↦ elim (Bool-cases (c == b'-')) [
    | inl minus ↦ rw (s.0, n, minus) (s.2, omega arith)
    | inr n' ↦ rw (s.0, n, n') (s, refl)
  ]
]

-- The test for 0x reads two bytes, of which the second is there if the first is no NUL.
hex_test :
    (m : Mem) (p : ℕ) (cs : List ℕ)
    → IsString m p cs
    → (m p == b'0' && (m (p + 1) == b'x' || m (p + 1) == b'X')) ≡ is_hex cs
hex_test m p [] s = ground arith
hex_test m p (c ∷ []) s = ground arith
hex_test m p (c ∷ d ∷ cs) s = ground arith

hex_body :
    (m : Mem) (p : ℕ) (cs : List ℕ)
    → IsString m p cs
    → is_hex cs ≡ true
    → PartAt m p cs (p + 2) (after_two cs)
hex_body m p [] s h = absurd (cc)
hex_body m p (c ∷ []) s h = absurd (cc)
hex_body m p (c ∷ d ∷ cs) s h = let e : p + 2 ≡ p + 1 + 1 = omega arith in rw e (s.2.2, omega arith)

pick_base_lem :
    (m : Mem) (p base : ℕ) (cs : List ℕ)
    → IsString m p cs
    → ((pick_base m p base).0 ≡ radix base cs) × PartAt m p cs (pick_base m p base).1 (body base cs)
unfolding pick_base
pick_base_lem m p base cs s =
    rw (hex_test m p cs s) (elim (Bool-cases ((base == 0 || base == 16) && is_hex cs)) [
      | inl y ↦ rw y (refl, hex_body m p cs s (ground arith))
      | inr n ↦ rw n (elim (Bool-cases (base == 0)) [
        | inl z ↦ rw z (refl, (s, refl))
        | inr z ↦ rw z (refl, (s, refl))
      ])
    ])

-- The text of a number without white space and sign.
abbrev pub unsigned : List ℕ → List ℕ
unsigned cs = after_sign (after_space cs)

strtoull_from :
    (fuel : ℕ) (m : Mem) (p base start b q : ℕ)
    → skip_space fuel m p ≡ some start
    → (pick_base m (skip_sign m start) base).0 ≡ b
    → (pick_base m (skip_sign m start) base).1 ≡ q
    → simple_strtoull fuel m p base
      ≡ (if ltb b 2 || ltb 16 b then some (0, p) else digit_loop fuel m b q 0)
unfolding simple_strtoull
strtoull_from fuel m p base start b q e f g = rw (e, f, g)

-- The base that a text is read in, and its digits; the result, and what is left of the text.
abbrev pub base_of : ℕ → List ℕ → ℕ
base_of base cs = radix base (unsigned cs)

abbrev pub digits_of : ℕ → List ℕ → List ℕ
digits_of base cs = digits (base_of base cs) (body base (unsigned cs))

abbrev pub left_over : ℕ → List ℕ → ℕ
left_over base cs = length (body base (unsigned cs)) - length (digits_of base cs)

length-after_space : (cs : List ℕ) → length (after_space cs) ≤ length cs
length-after_space [] = omega arith
length-after_space (c ∷ cs) = ground (arith, length-after_space cs)

length-after_sign : (cs : List ℕ) → length (after_sign cs) ≤ length cs
length-after_sign [] = omega arith
length-after_sign (c ∷ cs) = ground arith

length-after_two : (cs : List ℕ) → length (after_two cs) ≤ length cs
length-after_two [] = omega arith
length-after_two (c ∷ []) = omega arith
length-after_two (c ∷ d ∷ cs) = omega arith

length-body : (base : ℕ) (cs : List ℕ) → length (body base cs) ≤ length cs
length-body base cs = elim (Bool-cases ((base == 0 || base == 16) && is_hex cs)) [
  | inl y ↦ rw y (length-after_two cs)
  | inr n ↦ rw n (omega arith)
]

-- With fuel above the length of the string, `simple_strtoull` passes over white space, a sign, and
-- 0x where the base allows it, and returns the value of the digits that follow, cut off at
-- UINT64_MAX; `*endptr` is where the rest of the string starts. A base that is out of range gives 0,
-- and `*endptr` is the string.
pub simple_strtoull-value :
    (fuel : ℕ) (m : Mem) (p base : ℕ) (cs : List ℕ)
    → IsString m p cs
    → length cs < fuel
    → simple_strtoull fuel m p base
      ≡ some (
          if ltb (base_of base cs) 2 || ltb 16 (base_of base cs) then (0, p) else (
            min (value (base_of base cs) 0 (digits_of base cs)) u64_max,
            p + length cs - left_over base cs,
          ))
simple_strtoull-value fuel m p base cs s h =
    let (start, e, (t, l)) = skip_space_lem fuel m p cs s h in
    let (t', l') = skip_sign_lem m start (after_space cs) t in
    let (b, (t'', l'')) = pick_base_lem m (skip_sign m start) base (unsigned cs) t' in
    let r = base_of base cs in
    let q = (pick_base m (skip_sign m start) base).1 in
    let room = length-body base (unsigned cs) in
    let room' = length-after_sign (after_space cs) in
    let room'' = length-after_space cs in
    let short = length-digits r (body base (unsigned cs)) in
    strtoull_from fuel m p base start r q e b refl ∙ elim (Bool-cases (ltb r 2 || ltb 16 r)) [
      | inl bad ↦ rw bad refl
      | inr good ↦ rw good (
          digit_loop-value fuel m r q 0 (body base (unsigned cs)) (ground arith) (omega arith) t''
            (omega arith)
          ∙ pair_eq refl (omega arith))
    ]
