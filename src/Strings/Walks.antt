-- ===== src/Strings/Walks.antt =====
-- What the walks of src/lib/string.c compute, on strings that end in memory.
use meringue_os.Prelude.{
  ℕ, zero, suc, ◌+◌, ◌<◌, ◌≡◌, ◌≢◌, ◌↔◌, refl, ap, ◌∙◌, Bool, true, false, some, ◌==◌,
  if◌then◌else◌, List, [], ◌∷◌, length, arith, Bool-cases, inl, inr,
}
use meringue_os.Prelude.Int.{ℤ, pos, sub_ℕ}
use meringue_os.Memory.{Mem}
use meringue_os.Strings.{strlen_loop, strlen, strcmp, found_in, strspn_loop, strspn, strpbrk}

-- The string at `p` has the bytes `cs`, and a NUL behind them.
abbrev pub IsString : Mem → ℕ → List ℕ → Type 0
IsString m p [] = m p ≡ 0
IsString m p (c ∷ cs) = (m p ≡ c) × (c ≢ 0) × IsString m (p + 1) cs

strlen_loop_lem :
    (fuel : ℕ) (m : Mem) (p len : ℕ) (cs : List ℕ)
    → IsString m p cs
    → length cs < fuel
    → strlen_loop fuel m p len ≡ some (len + length cs)
unfolding strlen_loop
strlen_loop_lem zero m p len cs s h = absurd (omega arith)
strlen_loop_lem (suc fuel) m p len [] s h = ground arith
strlen_loop_lem (suc fuel) m p len (c ∷ cs) s h =
    ground (arith, strlen_loop_lem fuel m (p + 1) (len + 1) cs s.2 (omega arith))

-- With fuel above the length of the string, `strlen` returns the number of bytes before the NUL.
pub strlen-length :
    (fuel : ℕ) (m : Mem) (p : ℕ) (cs : List ℕ)
    → IsString m p cs
    → length cs < fuel
    → strlen fuel m p ≡ some (length cs)
unfolding strlen
strlen-length fuel m p cs s h = strlen_loop_lem fuel m p 0 cs s h ∙ ap some (omega arith)

-- The first bytes at which two strings differ, where a NUL ends each: their difference.
difference : List ℕ → List ℕ → ℤ
difference [] [] = pos 0
difference [] (y ∷ ys) = sub_ℕ 0 y
difference (x ∷ xs) [] = sub_ℕ x 0
difference (x ∷ xs) (y ∷ ys) = if x == y then difference xs ys else sub_ℕ x y

difference-zero :
    (xs ys : List ℕ) (m : Mem) (p q : ℕ)
    → IsString m p xs
    → IsString m q ys
    → (difference xs ys ≡ pos 0) ↔ (xs ≡ ys)
unfolding difference
difference-zero [] [] m p q s t = (λ _. refl, λ _. refl)
difference-zero [] (y ∷ ys) m p q s t = (λ e. ground arith, λ e. cc)
difference-zero (x ∷ xs) [] m p q s t = (λ e. ground arith, λ e. cc)
difference-zero (x ∷ xs) (y ∷ ys) m p q s t =
    let ih = difference-zero xs ys m (p + 1) (q + 1) s.2 t.2 in
    (λ e. ground (arith, ih.0), λ e. ground (arith, ih.1))

strcmp-difference :
    (fuel : ℕ) (m : Mem) (p q : ℕ) (xs ys : List ℕ)
    → IsString m p xs
    → IsString m q ys
    → length xs < fuel
    → strcmp fuel m p q ≡ some (difference xs ys)
unfolding strcmp difference
strcmp-difference zero m p q xs ys s t h = absurd (omega arith)
strcmp-difference (suc fuel) m p q [] [] s t h = ground arith
strcmp-difference (suc fuel) m p q [] (y ∷ ys) s t h = ground arith
strcmp-difference (suc fuel) m p q (x ∷ xs) [] s t h = ground arith
strcmp-difference (suc fuel) m p q (x ∷ xs) (y ∷ ys) s t h =
    ground (arith, strcmp-difference fuel m (p + 1) (q + 1) xs ys s.2 t.2 (omega arith))

-- With fuel above the length of the first string, `strcmp` of two strings returns, and returns 0
-- exactly if they have the same bytes.
pub strcmp-zero :
    (fuel : ℕ) (m : Mem) (p q : ℕ) (xs ys : List ℕ)
    → IsString m p xs
    → IsString m q ys
    → length xs < fuel
    → (r : ℤ) × (strcmp fuel m p q ≡ some r) × ((r ≡ pos 0) ↔ (xs ≡ ys))
strcmp-zero fuel m p q xs ys s t h =
    (difference xs ys, strcmp-difference fuel m p q xs ys s t h, difference-zero xs ys m p q s t)

-- Whether a byte is one of a list.
abbrev pub elem : ℕ → List ℕ → Bool
elem c [] = false
elem c (d ∷ ds) = if c == d then true else elem c ds

pub found_in-elem :
    (fuel : ℕ) (m : Mem) (c a : ℕ) (ds : List ℕ)
    → IsString m a ds
    → length ds < fuel
    → found_in fuel m c a ≡ some (elem c ds)
unfolding found_in
found_in-elem zero m c a ds s h = absurd (omega arith)
found_in-elem (suc fuel) m c a [] s h = ground arith
found_in-elem (suc fuel) m c a (d ∷ ds) s h =
    ground (arith, found_in-elem fuel m c (a + 1) ds s.2 (omega arith))

-- The longest front of `cs` that is all delimiters, and the longest that has none.
abbrev pub leading : List ℕ → List ℕ → List ℕ
leading ds [] = []
leading ds (c ∷ cs) = if elem c ds then c ∷ leading ds cs else []

abbrev pub word : List ℕ → List ℕ → List ℕ
word ds [] = []
word ds (c ∷ cs) = if elem c ds then [] else c ∷ word ds cs

strspn_loop_lem :
    (fuel : ℕ) (m : Mem) (p a count : ℕ) (cs ds : List ℕ)
    → IsString m p cs
    → IsString m a ds
    → length cs + length ds < fuel
    → strspn_loop fuel m p a count ≡ some (count + length (leading ds cs))
unfolding strspn_loop
strspn_loop_lem zero m p a count cs ds s t h = absurd (omega arith)
strspn_loop_lem (suc fuel) m p a count [] ds s t h = ground arith
strspn_loop_lem (suc fuel) m p a count (c ∷ cs) ds s t h =
    let look = found_in-elem (suc fuel) m (m p) a ds t (omega arith) in
    let ih = strspn_loop_lem fuel m (p + 1) a (count + 1) cs ds s.2 t (omega arith) in
    let e : m p ≡ c = s.0 in
    let e' : (m p == 0) ≡ false = let n : c ≢ 0 = s.1 in ground arith in
    rw (e', look, e)
      (elim (Bool-cases (elem c ds)) [
        | inl y ↦ rw y (ih ∙ ap some (omega arith))
        | inr n ↦ rw n (ap some (omega arith))
      ])

-- With fuel above the sum of the lengths of both strings, `strspn` returns the length of the longest
-- front of the first that holds only bytes of the second.
pub strspn-leading :
    (fuel : ℕ) (m : Mem) (p a : ℕ) (cs ds : List ℕ)
    → IsString m p cs
    → IsString m a ds
    → length cs + length ds < fuel
    → strspn fuel m p a ≡ some (length (leading ds cs))
unfolding strspn
strspn-leading fuel m p a cs ds s t h =
    strspn_loop_lem fuel m p a 0 cs ds s t h ∙ ap some (omega arith)

-- With fuel above the sum of the lengths of both strings, `strpbrk` returns the address of the first
-- byte of the first that is in the second, or NULL if there is none.
pub strpbrk-word :
    (fuel : ℕ) (m : Mem) (p a : ℕ) (cs ds : List ℕ)
    → IsString m p cs
    → IsString m a ds
    → length cs + length ds < fuel
    → strpbrk fuel m p a
      ≡ some (if length (word ds cs) == length cs then 0 else p + length (word ds cs))
unfolding strpbrk
strpbrk-word zero m p a cs ds s t h = absurd (omega arith)
strpbrk-word (suc fuel) m p a [] ds s t h = ground arith
strpbrk-word (suc fuel) m p a (c ∷ cs) ds s t h =
    let look = found_in-elem (suc fuel) m (m p) a ds t (omega arith) in
    let ih = strpbrk-word fuel m (p + 1) a cs ds s.2 t (omega arith) in
    let e : m p ≡ c = s.0 in
    let e' : (m p == 0) ≡ false = let n : c ≢ 0 = s.1 in ground arith in
    rw (e', look, e)
      (elim (Bool-cases (elem c ds)) [
        | inl y ↦ rw y (ap some (ground arith))
        | inr n ↦ rw n (ih ∙ ap some (ground arith))
      ])
