-- ===== src/Stdio/Numerals.antt =====
-- The number conversions of `kprintf` (src/lib/stdio.c) against the digits of a number.
use native.Mathlib.Nat.{pow-zero, pow-suc, div-lt_iff_lt-mul, div-add-mod', mod-lt}
use meringue_os.Prelude.{
  ℕ, zero, suc, ◌+◌, ◌-◌, ◌*◌, ◌/◌, ◌%◌, ◌^◌, ◌≤◌, ◌<◌, ◌≡◌, ◌≢◌, refl, ap, sym, ◌∙◌, Bool, true,
  false, some, ◌==◌, leb, if◌then◌else◌, List, [], ◌∷◌, ◌++◌, length, length-append, map, All,
  All-append, arith, Bool-cases, pair_eq, inl, inr,
}
use mathlib.Core.List.{append-nil, append_assoc, map-append}
use meringue_os.Numbers.Digits.{value}
use meringue_os.Stdio.{number_room, digit_char, number_loop, number, signed_number}

-- The digits of a number that has `room` of them at most, the highest first.
unfoldable pub places : ℕ → ℕ → ℕ → List ℕ
places base zero v = []
places base (suc room) v =
    if v / base == 0 then (v % base) ∷ [] else places base room (v / base) ++ (v % base) ∷ []

-- The text of a number.
abbrev pub numeral : Bool → ℕ → ℕ → List ℕ
numeral upper base v = map (digit_char upper) (places base number_room v)

-- The characters of digits are no NUL.
pub digits_full : (upper : Bool) (ds : List ℕ) → All (λ c. c ≢ 0) (map (digit_char upper) ds)
digits_full upper [] = tt
digits_full upper (d ∷ ds) = (ground arith, digits_full upper ds)

pub length-map : (f : ℕ → ℕ) (ds : List ℕ) → length (map f ds) ≡ length ds
length-map f [] = refl
length-map f (d ∷ ds) = omega (arith, length-map f ds)

snoc-ne-nil : (xs : List ℕ) (x : ℕ) → xs ++ x ∷ [] ≢ []
snoc-ne-nil [] x e = cc
snoc-ne-nil (y ∷ ys) x e = cc

pub places-ne-nil : (base room v : ℕ) → places base (suc room) v ≢ []
unfolding places
places-ne-nil base room v e = elim (Bool-cases (v / base == 0)) [
  | inl z ↦ let f : (v % base) ∷ [] ≡ [] = rw z at e in cc
  | inr n ↦ snoc-ne-nil (places base room (v / base)) (v % base) (rw n at e)
]

pub value-append :
    (base n d : ℕ) (ds : List ℕ) → value base n (ds ++ d ∷ []) ≡ value base n ds * base + d
value-append base n d [] = refl
value-append base n d (e ∷ ds) = value-append base (n * base + e) d ds

module _ (base : ℕ) (two : 2 ≤ base) where
  shrinks : (room v : ℕ) → v < base ^ suc room → v / base < base ^ room
  shrinks room v h =
      (div-lt_iff_lt-mul (omega arith)).1 (let e = pow-suc base room in omega (arith, e))

  one_left : (v : ℕ) → v < base ^ zero → v ≡ 0
  one_left v h = omega (arith, pow-zero base)

  pub value-places : (room v : ℕ) → v < base ^ room → value base 0 (places base room v) ≡ v
  unfolding places
  value-places zero v h = omega (arith, one_left v h)
  value-places (suc room) v h = elim (Bool-cases (v / base == 0)) [
    | inl z ↦
        let e : v / base ≡ 0 = ground arith in
        let d = div-add-mod' v base in
        let f : v / base * base ≡ 0 = rw e (omega arith) in rw z (omega (arith, d, f))
    | inr n ↦ rw n (
        value-append base 0 (v % base) (places base room (v / base))
        ∙ (rw (value-places room (v / base) (shrinks room v h)) (div-add-mod' v base)))
  ]

  pub places-lt : (room v : ℕ) → All (λ d. d < base) (places base room v)
  unfolding places
  places-lt zero v = tt
  places-lt (suc room) v =
      let m : v % base < base = mod-lt v (omega arith) in
      elim (Bool-cases (v / base == 0)) [
        | inl z ↦ rw z (m, tt)
        | inr n ↦ rw n (
            All-append (λ d. d < base) (places base room (v / base)) ((v % base) ∷ [])
              (places-lt room (v / base)) (m, tt))
      ]

  pub length-places : (room v : ℕ) → length (places base room v) ≤ room
  unfolding places
  length-places zero v = omega arith
  length-places (suc room) v = elim (Bool-cases (v / base == 0)) [
    | inl z ↦ rw z (omega arith)
    | inr n ↦ rw (n, length-append) (omega (arith, length-places room (v / base)))
  ]

  room_left : (room v : ℕ) → v < base ^ room → (v == 0) ≡ false → 0 < room
  room_left zero v h n = let z = one_left v h in ground arith
  room_left (suc room) v h n = omega arith

  pub number_loop-places :
      (upper : Bool) (room v : ℕ) (text : List ℕ)
      → 0 < room
      → v < base ^ room
      → number_loop upper base room v text
        ≡ some (
          room - length (places base room v),
          map (digit_char upper) (places base room v) ++ text,
        )
  unfolding number_loop places
  number_loop-places upper zero v text pos h = absurd (omega arith)
  number_loop-places upper (suc room) v text pos h = elim (Bool-cases (v / base == 0)) [
    | inl z ↦ let e : suc room - 1 ≡ room = omega arith in rw (z, e) refl
    | inr n ↦
        let q = v / base in
        let h' = shrinks room v h in
        let left : suc room - (length (places base room q) + 1)
            ≡ room - length (places base room q) =
          omega arith in
        rw
          (
            n,
            number_loop-places upper room q (digit_char upper (v % base) ∷ text)
                (room_left room q h' n) h',
          )
          (pair_eq
            (sym left
              ∙ ap (λ k. suc room - k) (sym (length-append (places base room q) ((v % base) ∷ []))))
            (sym (
              ap (λ t. t ++ text)
                (map-append (digit_char upper) (places base room q) ((v % base) ∷ []))
              ∙ append_assoc (map (digit_char upper) (places base room q))
                  (digit_char upper (v % base) ∷ []) text)))
  ]

-- `num_buf` has room for every 64-bit number in base 10 or more: the loop ends by its test, and the
-- text is the number's digits.
pub number-numeral :
    (upper : Bool) (base v : ℕ)
    → 2 ≤ base
    → v < base ^ number_room
    → number upper base v ≡ some (numeral upper base v)
unfolding number
number-numeral upper base v two h =
    rw (number_loop-places base two upper number_room v [] (omega arith) h)
      (ap some (append-nil (numeral upper base v)))

-- More room does not change the digits.
pub places_enough :
    (base k room v : ℕ)
    → 2 ≤ base
    → v < base ^ k
    → 0 < k
    → k ≤ room
    → places base room v ≡ places base k v
unfolding places
places_enough base zero room v two h pos le = absurd (omega arith)
places_enough base (suc k) zero v two h pos le = absurd (omega arith)
places_enough base (suc k) (suc room) v two h pos le = elim (Bool-cases (v / base == 0)) [
  | inl z ↦ rw z refl
  | inr n ↦
      let h' = shrinks base two k v h in
      rw
        (
          n,
          places_enough base k room (v / base) two h' (room_left base two k (v / base) h' n)
              (omega arith),
        )
        refl
]

-- The text of a signed number of `bits` bits.
abbrev pub signed_numeral : ℕ → ℕ → List ℕ
signed_numeral bits v =
    if leb (2 ^ (bits - 1)) v then b'-' ∷ numeral false 10 (2 ^ bits - v) else numeral false 10 v

-- The magnitude of an integer of up to 64 bits leaves a place for the sign.
signed_room : (v : ℕ) → v < 10 ^ 19 → length (places 10 number_room v) ≤ 19
signed_room v h =
    rw (places_enough 10 19 number_room v (omega arith) h (omega arith) (omega arith))
      (length-places 10 (omega arith) 19 v)

signed_text :
    (v : ℕ)
    → v < 10 ^ 19
    → (r : ℕ) × (number_loop false 10 number_room v [] ≡ some (suc r, numeral false 10 v))
signed_text v h =
    let n = length (places 10 number_room v) in
    let short = signed_room v h in
    let e : number_room - n ≡ suc (19 - n) = omega arith in
    (
      19 - n,
      number_loop-places 10 (omega arith) false number_room v [] (omega arith) (omega arith)
          ∙ pair_eq e (append-nil (numeral false 10 v)),
    )

signed_lem :
    (bits v : ℕ)
    → (leb (2 ^ (bits - 1)) v ≡ true → 2 ^ bits - v < 10 ^ 19)
    → (leb (2 ^ (bits - 1)) v ≡ false → v < 10 ^ 19)
    → signed_number bits v ≡ some (signed_numeral bits v)
unfolding signed_number
signed_lem bits v small small' = elim (Bool-cases (leb (2 ^ (bits - 1)) v)) [
  | inl minus ↦
      let (r, e) = signed_text (2 ^ bits - v) (small minus) in
      let z : (suc r == 0) ≡ false = ground arith in rw (minus, e, z) refl
  | inr plus ↦ let (r, e) = signed_text v (small' plus) in rw (plus, e) refl
]

-- The text of a signed 32-bit or 64-bit number, INT64_MIN included, fits in `num_buf` with its sign.
pub signed_number-32 : (v : ℕ) → v < 2 ^ 32 → signed_number 32 v ≡ some (signed_numeral 32 v)
signed_number-32 v h = signed_lem 32 v (λ _. omega arith) (λ _. omega arith)

pub signed_number-64 : (v : ℕ) → v < 2 ^ 64 → signed_number 64 v ≡ some (signed_numeral 64 v)
signed_number-64 v h = signed_lem 64 v (λ e. ground arith) (λ e. ground arith)
