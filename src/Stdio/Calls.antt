-- ===== src/Stdio/Calls.antt =====
-- Calls of `kprintf` (src/lib/stdio.c) with a literal as their format, and what they send.
use meringue_os.Prelude.{
  ℕ, ◌+◌, ◌%◌, ◌^◌, ◌≤◌, ◌<◌, ◌≡◌, ◌≢◌, refl, sym, length-append, All-append, Option-cases, none,
  ap, ◌∙◌, Bool, true, false, ◌&&◌, not, Option, some, ◌>>=◌, ◌==◌, if◌then◌else◌, List, [], ◌∷◌,
  ◌++◌, length, All, arith, Bool-cases, inl, inr, String, codes,
}
use mathlib.Core.List.{append_assoc, append-nil}
use meringue_os.Stdio.{digit_char, number_room}
use meringue_os.Stdio.Numerals.{numeral, places, length-places, digits_full, length-map}
use meringue_os.Memory.{Mem}
use meringue_os.Strings.Walks.{IsString}
use meringue_os.Stdio.{until_nul, kprintf}
use meringue_os.Stdio.Pieces.{
  Piece, literal, percent, character, string, integer, unsigned_int, long_unsigned, hex, short_hex,
  unknown, is_specifier, IsPiece, spellings, arguments, texts,
}
use meringue_os.Stdio.Render.{kprintf-texts}

-- A call of `kprintf`: a format and its integer arguments, or a format and the text of its string.
pub data Print : Type 0 where
  print : String → List ℕ → Print
  print_string : String → String → Print

-- What the calls send, where `at` is the address of a format or a text.
unfoldable pub sent : ℕ → Mem → (String → ℕ) → Print → Option (List ℕ)
sent fuel m at (print f args) = kprintf fuel m (at f) args >>= λ r. some r.0
sent fuel m at (print_string f s) = kprintf fuel m (at f) (at s ∷ []) >>= λ r. some r.0

unfoldable pub all_sent : ℕ → Mem → (String → ℕ) → List Print → Option (List ℕ)
all_sent fuel m at [] = some []
all_sent fuel m at (p ∷ ps) =
    sent fuel m at p >>= λ text. all_sent fuel m at ps >>= λ others. some (text ++ others)

-- Literals stand at their addresses.
abbrev pub Placed : Mem → (String → ℕ) → List String → Type 0
Placed m at = All (λ f. IsString m (at f) (codes f))

-- A format that has no string, as pieces that are tested.
abbrev is_plain : Piece → Bool
is_plain (literal c) = not (c == 0) && not (c == b'%')
is_plain (string a cs) = false
is_plain (unknown c) = not (is_specifier c)
is_plain _ = true

abbrev pub are_plain : List Piece → Bool
are_plain [] = true
are_plain (x ∷ xs) = is_plain x && are_plain xs

is_plain-IsPiece : (m : Mem) (x : Piece) → is_plain x ≡ true → IsPiece m 0 x
is_plain-IsPiece m (literal c) h = ground arith
is_plain-IsPiece m percent h = tt
is_plain-IsPiece m (character a) h = tt
is_plain-IsPiece m (string a cs) h = absurd (cc)
is_plain-IsPiece m (integer v) h = tt
is_plain-IsPiece m (unsigned_int v) h = tt
is_plain-IsPiece m (long_unsigned v) h = tt
is_plain-IsPiece m (hex upper v) h = tt
is_plain-IsPiece m (short_hex v) h = tt
is_plain-IsPiece m (unknown c) h = elim (Bool-cases (is_specifier c)) [
  | inl y ↦ let e : not (is_specifier c) ≡ false = rw y refl in absurd (cc)
  | inr n ↦ n
]

are_plain-All : (m : Mem) (xs : List Piece) → are_plain xs ≡ true → All (IsPiece m 0) xs
are_plain-All m [] h = tt
are_plain-All m (x ∷ xs) h = elim (Bool-cases (is_plain x)) [
  | inl y ↦ (is_plain-IsPiece m x y, are_plain-All m xs (rw y at h))
  | inr n ↦ let e : false ≡ true = rw n at h in absurd (cc)
]

pub sent-texts :
    (fuel : ℕ) (m : Mem) (at : String → ℕ) (f : String) (xs : List Piece) (extra : List ℕ)
    → IsString m (at f) (codes f)
    → codes f ≡ spellings xs
    → are_plain xs ≡ true
    → length (texts xs) < 1023
    → length xs < fuel
    → sent fuel m at (print f (arguments xs ++ extra)) ≡ some (until_nul (texts xs))
unfolding sent
sent-texts fuel m at f xs extra s spelled plain short enough =
    rw
      (kprintf-texts fuel m (at f) 0 xs extra (are_plain-All m xs plain) (rw spelled at s) short
        (omega arith))
      refl

-- The pieces of a format that no conversion stands in.
abbrev pub unread : List ℕ → List Piece
unread [] = []
unread (c ∷ []) = literal c ∷ []
unread (c ∷ d ∷ cs) = if c == b'%' then unknown d ∷ unread cs else literal c ∷ unread (d ∷ cs)

arguments-unread : (cs : List ℕ) → arguments (unread cs) ≡ []
arguments-unread [] = refl
arguments-unread (c ∷ []) = refl
arguments-unread (c ∷ d ∷ cs) = elim (Bool-cases (c == b'%')) [
  | inl y ↦ rw (y, arguments-unread cs) refl
  | inr n ↦ rw (n, arguments-unread (d ∷ cs)) refl
]

-- A format that no conversion stands in.
pub raw_sent :
    (fuel : ℕ) (m : Mem) (at : String → ℕ) (f : String) (args : List ℕ)
    → IsString m (at f) (codes f)
    → codes f ≡ spellings (unread (codes f))
    → are_plain (unread (codes f)) ≡ true
    → until_nul (texts (unread (codes f))) ≡ codes f
    → (length (texts (unread (codes f))) < 1023) × (length (unread (codes f)) < fuel)
    → sent fuel m at (print f args) ≡ some (codes f)
raw_sent fuel m at f args s spelled plain same (short, enough) =
    let line = sent-texts fuel m at f (unread (codes f)) args s spelled plain short enough in
    (rw (arguments-unread (codes f)) at line) ∙ ap some same

-- A text without NUL is sent whole.
pub until_nul_full : (cs : List ℕ) → All (λ c. c ≢ 0) cs → until_nul cs ≡ cs
until_nul_full [] h = refl
until_nul_full (c ∷ cs) (ne, h) =
    let z : (c == 0) ≡ false = ground arith in rw (z, until_nul_full cs h) refl

pub numeral-le : (v : ℕ) → length (numeral false 16 v) ≤ 20
numeral-le v =
    omega
      (arith, length-map (digit_char false) (places 16 20 v), length-places 16 (omega arith) 20 v)

-- A format with one `%llx` and no other conversion.
abbrev pub hex_pieces : String → ℕ → String → List Piece
hex_pieces before v behind = unread (codes before) ++ (hex false v ∷ unread (codes behind))

abbrev pub hex_text : String → ℕ → String → List ℕ
hex_text before v behind = codes before ++ (numeral false 16 (v % 2 ^ 64) ++ codes behind)

pub hex_sent :
    (fuel : ℕ) (m : Mem) (at : String → ℕ) (f before behind : String) (v : ℕ) (extra : List ℕ)
    → IsString m (at f) (codes f)
    → codes f ≡ spellings (hex_pieces before v behind)
    → are_plain (hex_pieces before v behind) ≡ true
    → arguments (hex_pieces before v behind) ≡ v ∷ []
    → texts (hex_pieces before v behind) ≡ hex_text before v behind
    → All (λ c. c ≢ 0) (codes before) × All (λ c. c ≢ 0) (codes behind)
    → (length (codes before) + length (codes behind) ≤ 500)
      × (length (hex_pieces before v behind) < fuel)
    → sent fuel m at (print f (v ∷ extra)) ≡ some (hex_text before v behind)
hex_sent fuel m at f before behind v extra s spelled plain args same (full, full') (short, enough) =
    let n = numeral-le (v % 2 ^ 64) in
    let k = length-append (codes before) (numeral false 16 (v % 2 ^ 64) ++ codes behind) in
    let k' = length-append (numeral false 16 (v % 2 ^ 64)) (codes behind) in
    let fits : length (texts (hex_pieces before v behind)) < 1023 =
      rw same (omega (arith, n, k, k', short)) in
    let line =
      sent-texts fuel m at f (hex_pieces before v behind) extra s spelled plain fits enough in
    let whole =
      All-append (λ c. c ≢ 0) (codes before) (numeral false 16 (v % 2 ^ 64) ++ codes behind) full
        (All-append (λ c. c ≢ 0) (numeral false 16 (v % 2 ^ 64)) (codes behind)
          (digits_full false (places 16 number_room (v % 2 ^ 64))) full') in
    (rw (args, same) at line) ∙ ap some (until_nul_full (hex_text before v behind) whole)

-- Calls one after the other.
pub all_sent-append :
    (fuel : ℕ) (m : Mem) (at : String → ℕ) (ps qs : List Print) (xs ys : List ℕ)
    → all_sent fuel m at ps ≡ some xs
    → all_sent fuel m at qs ≡ some ys
    → all_sent fuel m at (ps ++ qs) ≡ some (xs ++ ys)
unfolding all_sent
all_sent-append fuel m at [] qs xs ys e f = let g : [] ≡ xs = cc in rw (← g) f
all_sent-append fuel m at (p ∷ ps) qs xs ys e f = elim (Option-cases (sent fuel m at p)) [
  | inl bad ↦ let g : ◌≡◌ {A = Option (List ℕ)} none (some xs) = rw bad at e in absurd (cc)
  | inr (text, here) ↦ elim (Option-cases (all_sent fuel m at ps)) [
    | inl bad ↦
        let g : ◌≡◌ {A = Option (List ℕ)} none (some xs) = rw (here, bad) at e in absurd (cc)
    | inr (others, there) ↦
        let g : ◌≡◌ {A = Option (List ℕ)} (some (text ++ others)) (some xs) =
          rw (here, there) at e in
        let k : text ++ others ≡ xs = cc in
        rw (here, all_sent-append fuel m at ps qs others ys there f, ← k)
          (ap some (sym (append_assoc text others ys)))
  ]
]

pub cons_sent :
    (fuel : ℕ) (m : Mem) (at : String → ℕ) (p : Print) (ps : List Print) (xs ys : List ℕ)
    → sent fuel m at p ≡ some xs
    → all_sent fuel m at ps ≡ some ys
    → all_sent fuel m at (p ∷ ps) ≡ some (xs ++ ys)
unfolding all_sent
cons_sent fuel m at p ps xs ys a b = rw (a, b) refl

pub two_sent :
    (fuel : ℕ) (m : Mem) (at : String → ℕ) (p q : Print) {xs ys : List ℕ}
    → sent fuel m at p ≡ some xs
    → sent fuel m at q ≡ some ys
    → all_sent fuel m at (p ∷ q ∷ []) ≡ some (xs ++ ys)
unfolding all_sent
two_sent fuel m at p q {ys = ys} a b = rw (a, b, append-nil ys) refl

-- `abort` of src/lib/stdlib_stubs.c: what it sends before it stops for ever.
unfoldable pub abort : List Print
abort = print "ABORT CALLED!\n" [] ∷ []
