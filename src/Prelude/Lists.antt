-- ===== src/Prelude/Lists.antt =====
-- Lists measured by native numbers, and predicates on their members and pairs.
use Prim.Native.Nat.{ℕ, zero, suc, ◌+◌}
use mathlib.Core.Path.{◌≡◌}
use mathlib.Core.List.{List, [], ◌∷◌, ◌++◌}
use native.Mathlib.Omega.{arith}

module _ {ℓ} {A : Type ℓ} where
  abbrev pub length : List A → ℕ
  length [] = 0
  length (x ∷ xs) = suc (length xs)

  pub length-append : (xs ys : List A) → length (xs ++ ys) ≡ length xs + length ys
  length-append [] ys = omega arith
  length-append (x ∷ xs) ys = omega (arith, length-append xs ys)

  abbrev pub take : ℕ → List A → List A
  take zero xs = []
  take (suc n) [] = []
  take (suc n) (x ∷ xs) = x ∷ take n xs

  abbrev pub drop : ℕ → List A → List A
  drop zero xs = xs
  drop (suc n) [] = []
  drop (suc n) (x ∷ xs) = drop n xs

  -- The first member, and the last, of a list that may be empty.
  abbrev pub first_or : A → List A → A
  first_or d [] = d
  first_or d (x ∷ xs) = x

  abbrev pub last_or : A → List A → A
  last_or d [] = d
  last_or d (x ∷ xs) = last_or x xs

module _ {ℓ κ} {A : Type ℓ} where
  abbrev pub All : (A → Type κ) → List A → Type κ
  All P [] = Unit
  All P (x ∷ xs) = P x × All P xs

  -- Every member stands in `R` to those behind it.
  abbrev pub Pairs : (A → A → Type κ) → List A → Type κ
  Pairs R [] = Unit
  Pairs R (x ∷ xs) = All (R x) xs × Pairs R xs

  pub All-append : (P : A → Type κ) (xs ys : List A) → All P xs → All P ys → All P (xs ++ ys)
  All-append P [] ys hx hy = hy
  All-append P (x ∷ xs) ys (px, hx) hy = (px, All-append P xs ys hx hy)

  pub All-left : (P : A → Type κ) (xs ys : List A) → All P (xs ++ ys) → All P xs
  All-left P [] ys h = tt
  All-left P (x ∷ xs) ys (px, h) = (px, All-left P xs ys h)

  pub All-right : (P : A → Type κ) (xs ys : List A) → All P (xs ++ ys) → All P ys
  All-right P [] ys h = h
  All-right P (x ∷ xs) ys (px, h) = All-right P xs ys h

  pub All-mono : (P Q : A → Type κ) (xs : List A) → ((x : A) → P x → Q x) → All P xs → All Q xs
  All-mono P Q [] f h = tt
  All-mono P Q (x ∷ xs) f (px, h) = (f x px, All-mono P Q xs f h)

  pub All-zip :
      (P Q R : A → Type κ) (xs : List A)
      → ((x : A) → P x → Q x → R x)
      → All P xs
      → All Q xs
      → All R xs
  All-zip P Q R [] f h k = tt
  All-zip P Q R (x ∷ xs) f (px, h) (qx, k) = (f x px qx, All-zip P Q R xs f h k)

  pub All-last_or : (P : A → Type κ) (x : A) (xs : List A) → P x → All P xs → P (last_or x xs)
  All-last_or P x [] px h = px
  All-last_or P x (y ∷ xs) px (py, h) = All-last_or P y xs py h

  pub Pairs-left : (R : A → A → Type κ) (xs ys : List A) → Pairs R (xs ++ ys) → Pairs R xs
  Pairs-left R [] ys h = tt
  Pairs-left R (x ∷ xs) ys (hx, h) = (All-left (R x) xs ys hx, Pairs-left R xs ys h)

  pub Pairs-right : (R : A → A → Type κ) (xs ys : List A) → Pairs R (xs ++ ys) → Pairs R ys
  Pairs-right R [] ys h = h
  Pairs-right R (x ∷ xs) ys (hx, h) = Pairs-right R xs ys h

  -- A member in the middle stands in `R` to the rest; what is left without it are pairs still.
  pub Pairs-before :
      (R : A → A → Type κ) (xs : List A) (y : A) (ys : List A)
      → Pairs R (xs ++ y ∷ ys)
      → All (λ x. R x y) xs
  Pairs-before R [] y ys h = tt
  Pairs-before R (x ∷ xs) y ys (hx, h) =
      ((All-right (R x) xs (y ∷ ys) hx).0, Pairs-before R xs y ys h)

  pub All-without :
      (P : A → Type κ) (xs : List A) (y : A) (ys : List A) → All P (xs ++ y ∷ ys) → All P (xs ++ ys)
  All-without P [] y ys (_, h) = h
  All-without P (x ∷ xs) y ys (px, h) = (px, All-without P xs y ys h)

  pub Pairs-without :
      (R : A → A → Type κ) (xs : List A) (y : A) (ys : List A)
      → Pairs R (xs ++ y ∷ ys)
      → Pairs R (xs ++ ys)
  Pairs-without R [] y ys (_, h) = h
  Pairs-without R (x ∷ xs) y ys (hx, h) = (All-without (R x) xs y ys hx, Pairs-without R xs y ys h)

  -- Every member of the front stands in `R` to all of the back.
  pub Pairs-cross :
      (R : A → A → Type κ) (xs ys : List A) → Pairs R (xs ++ ys) → All (λ x. All (R x) ys) xs
  Pairs-cross R [] ys h = tt
  Pairs-cross R (x ∷ xs) ys (hx, h) = (All-right (R x) xs ys hx, Pairs-cross R xs ys h)

  pub All-always : (P : A → Type κ) (xs : List A) → ((x : A) → P x) → All P xs
  All-always P [] f = tt
  All-always P (x ∷ xs) f = (f x, All-always P xs f)

  pub All-both : (P Q : A → Type κ) (xs : List A) → All P xs → All Q xs → All (λ x. P x × Q x) xs
  All-both P Q [] h k = tt
  All-both P Q (x ∷ xs) (px, h) (qx, k) = ((px, qx), All-both P Q xs h k)
