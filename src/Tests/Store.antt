-- ===== src/Tests/Store.antt =====
-- Memory that holds given texts, for the examples.
use meringue_os.Prelude.{
  ℕ, zero, suc, ◌+◌, ◌-◌, ◌*◌, ◌≡◌, ◌<◌, Bool, true, ◌&&◌, not, ◌==◌, if◌then◌else◌, List, [], ◌∷◌,
  length, All, arith, String, codes,
}
use meringue_os.Memory.{Mem, IsBytes, within}
use meringue_os.Strings.Walks.{IsString}
use meringue_os.Stdio.Calls.{Placed}

abbrev byte_at : List ℕ → ℕ → ℕ
byte_at [] i = 0
byte_at (c ∷ cs) zero = c
byte_at (c ∷ cs) (suc i) = byte_at cs i

-- The texts at their addresses, and NULs around them.
abbrev pub texts_at : List (ℕ × List ℕ) → Mem
texts_at [] a = 0
texts_at ((p, cs) ∷ others) a =
    if within p (length cs) a then byte_at cs (a - p) else texts_at others a

byte_at-lt : (cs : List ℕ) (i : ℕ) → All (λ c. c < 256) cs → byte_at cs i < 256
byte_at-lt [] i h = omega arith
byte_at-lt (c ∷ cs) zero (lt, h) = lt
byte_at-lt (c ∷ cs) (suc i) (lt, h) = byte_at-lt cs i h

pub texts_at-IsBytes :
    (texts : List (ℕ × List ℕ))
    → All (λ text. All (λ c. c < 256) text.1) texts
    → IsBytes (texts_at texts)
texts_at-IsBytes [] h a = omega arith
texts_at-IsBytes ((p, cs) ∷ texts) (lt, h) a =
    ground (arith, byte_at-lt cs (a - p) lt, texts_at-IsBytes texts h a)

abbrev total : List ℕ → ℕ
total [] = 0
total (c ∷ cs) = c + total cs

-- An address for each literal, and memory that holds the given ones there.
abbrev pub place : String → ℕ
place s = 100 * total (codes s)

abbrev pub placed : List String → List (ℕ × List ℕ)
placed [] = []
placed (s ∷ ss) = (place s, codes s) ∷ placed ss

-- A test for `IsString`.
abbrev pub is_string : Mem → ℕ → List ℕ → Bool
is_string m p [] = m p == 0
is_string m p (c ∷ cs) = (m p == c) && not (c == 0) && is_string m (p + 1) cs

pub is_string_sound : (m : Mem) (p : ℕ) (cs : List ℕ) → is_string m p cs ≡ true → IsString m p cs
is_string_sound m p [] h = ground arith
is_string_sound m p (c ∷ cs) h =
    (ground arith, ground arith, is_string_sound m (p + 1) cs (ground arith))

abbrev pub are_placed : Mem → List String → Bool
are_placed m [] = true
are_placed m (s ∷ ss) = is_string m (place s) (codes s) && are_placed m ss

pub are_placed_sound : (m : Mem) (ss : List String) → are_placed m ss ≡ true → Placed m place ss
are_placed_sound m [] h = tt
are_placed_sound m (s ∷ ss) h =
    (is_string_sound m (place s) (codes s) (ground arith), are_placed_sound m ss (ground arith))
