-- ===== src/Stdio/Reading.antt =====
-- The numerals that `kprintf` makes for `%X` and `%u` (src/lib/stdio.c), as `simple_strtoull` (src/lib/stdlib.c)
-- reads them.
use meringue_os.Prelude.{
  ℕ, ◌+◌, ◌-◌, ◌≤◌, ◌<◌, ◌≡◌, ◌≢◌, refl, ap, ◌∙◌, Bool, true, false, ◌&&◌, ◌||◌, some, ◌==◌, leb,
  List, [], ◌∷◌, length, map, All, arith, pair_eq, word_mod,
}
use meringue_os.Memory.{Mem}
use meringue_os.Strings.Walks.{IsString}
use meringue_os.Numbers.{digit_in, is_space, simple_strtoull}
use meringue_os.Numbers.Digits.{digits, digits_more, value}
use meringue_os.Numbers.Parse.{is_hex, body, unsigned, base_of, simple_strtoull-value}
use meringue_os.Stdio.{number_room, digit_char}
use meringue_os.Stdio.Numerals.{places, numeral, places-ne-nil, value-places, places-lt}

digit_in-digit_char :
    (upper : Bool) (base d : ℕ) → base ≤ 16 → d < base → digit_in base (digit_char upper d) ≡ some d
digit_in-digit_char upper base d h lt = ground arith

digits-map :
    (upper : Bool) (base : ℕ) (ds : List ℕ)
    → base ≤ 16
    → All (λ d. d < base) ds
    → digits base (map (digit_char upper) ds) ≡ ds
digits-map upper base [] h a = unfold digits in refl
digits-map upper base (d ∷ ds) h (lt, a) =
    digits_more base (digit_char upper d) d (map (digit_char upper) ds)
      (digit_in-digit_char upper base d h lt)
    ∙ ap (λ t. d ∷ t) (digits-map upper base ds h a)

pub length-map : (f : ℕ → ℕ) (xs : List ℕ) → length (map f xs) ≡ length xs
length-map f [] = refl
length-map f (x ∷ xs) = omega (arith, length-map f xs)

pub digits-numeral :
    (upper : Bool) (base v : ℕ)
    → 2 ≤ base
    → base ≤ 16
    → digits base (numeral upper base v) ≡ places base number_room v
digits-numeral upper base v two h =
    digits-map upper base (places base number_room v) h (places-lt base two number_room v)

-- The numeral of a 64-bit number behind "0x", which `simple_strtoull` is passed at base 0, gives the
-- number back, with fuel above the length of that text, and `*endptr` is the end of the text.
pub simple_strtoull-hex :
    (fuel : ℕ) (m : Mem) (p : ℕ) (upper : Bool) (v : ℕ)
    → v < word_mod
    → IsString m p (b'0' ∷ b'x' ∷ numeral upper 16 v)
    → length (numeral upper 16 v) + 2 < fuel
    → simple_strtoull fuel m p 0 ≡ some (v, p + (length (numeral upper 16 v) + 2))
simple_strtoull-hex fuel m p upper v h s enough =
    let t = numeral upper 16 v in
    let ds = places 16 number_room v in
    let e = digits-numeral upper 16 v (omega arith) (omega arith) in
    let val : value 16 0 ds ≡ v = value-places 16 (omega arith) number_room v (omega arith) in
    let same : length t ≡ length ds = length-map (digit_char upper) ds in
    let all : value 16 0 (digits 16 t) ≡ v = ap (value 16 0) e ∙ val in
    let none_left : length t - length (digits 16 t) ≡ 0 = omega (arith, same, ap length e) in
    simple_strtoull-value fuel m p 0 (b'0' ∷ b'x' ∷ t) s (omega arith)
    ∙ pair_eq (omega (arith, all)) (omega (arith, none_left))

-- A numeral in base 10 stands for itself: it has no white space, no sign and no "0x" in front.
plain :
    (c : ℕ) (cs : List ℕ)
    → (leb b'0' c && leb c b'9') ≡ true
    → is_hex (c ∷ cs) ≡ false
    → (base_of 0 (c ∷ cs) ≡ 10) × (body 0 (unsigned (c ∷ cs)) ≡ c ∷ cs)
plain c cs digit hex =
    let s : is_space c ≡ false = ground arith in
    let g : (c == b'+' || c == b'-') ≡ false = ground arith in
    (rw (s, g, hex) refl, rw (s, g, hex) refl)

decimal_hex : (ds : List ℕ) → All (λ d. d < 10) ds → is_hex (map (digit_char false) ds) ≡ false
decimal_hex [] a = refl
decimal_hex (d ∷ []) a = refl
decimal_hex (d ∷ e ∷ ds) (p, (q, a)) = ground arith

decimal_digit :
    (d : ℕ) → d < 10 → (leb b'0' (digit_char false d) && leb (digit_char false d) b'9') ≡ true
decimal_digit d h = ground arith

decimal-plain :
    (ds : List ℕ)
    → ds ≢ []
    → All (λ d. d < 10) ds
    → (base_of 0 (map (digit_char false) ds) ≡ 10)
      × (body 0 (unsigned (map (digit_char false) ds)) ≡ map (digit_char false) ds)
decimal-plain [] ne a = absurd (ne refl)
decimal-plain (d ∷ ds) ne (p, a) =
    plain (digit_char false d) (map (digit_char false) ds) (decimal_digit d p)
      (decimal_hex (d ∷ ds) (p, a))

-- The decimal numeral of a 64-bit number, which `simple_strtoull` is passed at base 0, gives the number
-- back, and `*endptr` is the end of the text.
pub simple_strtoull-decimal :
    (fuel : ℕ) (m : Mem) (p v : ℕ)
    → v < word_mod
    → IsString m p (numeral false 10 v)
    → length (numeral false 10 v) < fuel
    → simple_strtoull fuel m p 0 ≡ some (v, p + length (numeral false 10 v))
simple_strtoull-decimal fuel m p v h s enough =
    let t = numeral false 10 v in
    let ds = places 10 number_room v in
    let (b, whole) =
      decimal-plain ds (places-ne-nil 10 19 v) (places-lt 10 (omega arith) number_room v) in
    let e = digits-numeral false 10 v (omega arith) (omega arith) in
    let val : value 10 0 ds ≡ v = value-places 10 (omega arith) number_room v (omega arith) in
    let same : length t ≡ length ds = length-map (digit_char false) ds in
    let all : value 10 0 (digits 10 t) ≡ v = ap (value 10 0) e ∙ val in
    let none_left : length t - length (digits 10 t) ≡ 0 = omega (arith, same, ap length e) in
    simple_strtoull-value fuel m p 0 t s enough
    ∙ (rw (b, whole) (pair_eq (omega (arith, all)) (omega (arith, none_left))))
