-- ===== src/Strings/Tokens.antt =====
-- `strtok` of src/lib/string.c: it cuts the next token out of a string, in place.
use meringue_os.Prelude.{
  ℕ, suc, ◌+◌, ◌≤◌, ◌<◌, ◌≡◌, ◌≢◌, ◌⊎◌, refl, ap, ◌∙◌, true, false, Option, none, some, ◌==◌,
  if◌then◌else◌, List, [], ◌∷◌, length, arith, Bool-cases, Option-cases, inl, inr,
}
use mathlib.Core.List.{cons-ne-nil}
use meringue_os.Memory.{Mem, write, within}
use meringue_os.Strings.{strspn, Token, end_token, take_token, strtok}
use meringue_os.Strings.Walks.{IsString, elem, leading, word, strspn-leading, strpbrk-word}

-- The bytes from the first that is no delimiter.
abbrev pub skip : List ℕ → List ℕ → List ℕ
skip ds [] = []
skip ds (c ∷ cs) = if elem c ds then skip ds cs else c ∷ cs

-- The bytes behind the first delimiter, if there is one.
abbrev pub behind : List ℕ → List ℕ → Option (List ℕ)
behind ds [] = none
behind ds (c ∷ cs) = if elem c ds then some cs else behind ds cs

pub IsString-skip :
    (m : Mem) (p : ℕ) (ds cs : List ℕ)
    → IsString m p cs
    → IsString m (p + length (leading ds cs)) (skip ds cs)
IsString-skip m p ds [] s = let e : p + 0 ≡ p = omega arith in rw e s
IsString-skip m p ds (c ∷ cs) s = elim (Bool-cases (elem c ds)) [
  | inl y ↦
      let e : p + suc (length (leading ds cs)) ≡ p + 1 + length (leading ds cs) = omega arith in
      rw (y, e) (IsString-skip m (p + 1) ds cs s.2)
  | inr n ↦ let e : p + 0 ≡ p = omega arith in rw (n, e) s
]

-- A string stays where no byte of it is written.
pub IsString-eq :
    (m k : Mem) (p : ℕ) (cs : List ℕ)
    → ((a : ℕ) → within p (suc (length cs)) a ≡ true → k a ≡ m a)
    → IsString m p cs
    → IsString k p cs
IsString-eq m k p [] same s = same p (ground arith) ∙ s
IsString-eq m k p (c ∷ cs) same s = (
  same p (ground arith) ∙ s.0,
  s.1,
  IsString-eq m k (p + 1) cs (λ a w. same a (ground arith)) s.2,
)

-- A NUL over the delimiter at `q` ends the word there.
IsString-word :
    (m : Mem) (p q : ℕ) (ds cs : List ℕ)
    → IsString m p cs
    → q ≡ p + length (word ds cs)
    → IsString (write m q 0) p (word ds cs)
unfolding write
IsString-word m p q ds [] s e = ground arith
IsString-word m p q ds (c ∷ cs) s e = elim (Bool-cases (elem c ds)) [
  | inl y ↦ let e' : q ≡ p + 0 = rw y at e in rw y (ground arith)
  | inr n ↦
      let e' : q ≡ p + suc (length (word ds cs)) = rw n at e in
      rw n (ground arith, s.1, IsString-word m (p + 1) q ds cs s.2 (omega arith))
]

-- What stands behind the delimiter at `q` is a string.
IsString-behind :
    (m : Mem) (p q : ℕ) (ds cs : List ℕ) {rest : List ℕ}
    → IsString m p cs
    → q ≡ p + length (word ds cs)
    → behind ds cs ≡ some rest
    → IsString m (q + 1) rest
IsString-behind m p q ds [] s e b = absurd (cc)
IsString-behind m p q ds (c ∷ cs) {rest} s e b = elim (Bool-cases (elem c ds)) [
  | inl y ↦
      let e' : q ≡ p = let f : q ≡ p + 0 = rw y at e in omega arith in
      let b' : some cs ≡ some rest = rw y at b in let r : cs ≡ rest = cc in rw (e', ← r) s.2
  | inr n ↦
      let e' : q ≡ p + suc (length (word ds cs)) = rw n at e in
      let b' : behind ds cs ≡ some rest = rw n at b in
      IsString-behind m (p + 1) q ds cs s.2 (omega arith) b'
]

-- Without a delimiter the word is all there is; with one it is shorter.
word-all : (ds cs : List ℕ) → behind ds cs ≡ none → word ds cs ≡ cs
word-all ds [] e = refl
word-all ds (c ∷ cs) e = elim (Bool-cases (elem c ds)) [
  | inl y ↦ let b : some cs ≡ none = rw y at e in cc
  | inr n ↦ let b : behind ds cs ≡ none = rw n at e in rw n (ap (λ t. c ∷ t) (word-all ds cs b))
]

behind-some : (ds cs rest : List ℕ) → behind ds cs ≡ some rest → length (word ds cs) < length cs
behind-some ds [] rest e = absurd (cc)
behind-some ds (c ∷ cs) rest e = ground (arith, behind-some ds cs rest)

-- What `strtok` leaves, from a string `cs` at `p`, after the delimiters at its front: `t` has NULL
-- if nothing is left, or a token whose bytes are the word, and the place of what is behind it.
pub record Cut (ds : List ℕ) (m : Mem) (p : ℕ) (cs : List ℕ) (t : Token) : Type 0 where
  pub word_at : t.token ≡ p
  pub token : IsString t.mem p (word ds cs)
  pub rest :
      ((behind ds cs ≡ none) × (t.last ≡ 0))
      ⊎ ((r : List ℕ) × (behind ds cs ≡ some r)
          × (t.last ≡ p + length (word ds cs) + 1)
          × IsString t.mem t.last r)
  pub kept : (a : ℕ) → within p (length cs) a ≡ false → t.mem a ≡ m a

module _ (m : Mem) (p : ℕ) (ds cs : List ℕ) (s : IsString m p cs) where
  -- What `strpbrk` finds in the string.
  stop : ℕ
  stop = if length (word ds cs) == length cs then 0 else p + length (word ds cs)

  end_token-Cut : p ≢ 0 → Cut ds m p cs (end_token m p stop)
  unfolding end_token stop
  end_token-Cut ne = elim (Option-cases (behind ds cs)) [
    | inl nil ↦
        let w : word ds cs ≡ cs = word-all ds cs nil in
        let t : (length (word ds cs) == length cs) ≡ true = rw w (ground arith) in
        rw t (record { word_at = refl; token = rw w s; rest = inl (nil, refl); kept = λ a o. refl })
    | inr (r, got) ↦
        let short = behind-some ds cs r got in
        let t : (length (word ds cs) == length cs) ≡ false = ground arith in
        let u : (p + length (word ds cs) == 0) ≡ false = ground arith in
        let q = p + length (word ds cs) in
        let k = write m q 0 in
        let behind_at : IsString k (q + 1) r =
          IsString-eq m k (q + 1) r (λ a w. unfold write in ground arith)
            (IsString-behind m p q ds cs s refl got) in
        rw (t, u)
          (record {
            word_at = refl;
            token = IsString-word m p q ds cs s refl;
            rest = inr (r, got, refl, behind_at);
            kept = λ a o. unfold write in ground arith;
          })
  ]

-- The outcome of a call that starts at `start` on the string `cs`: no token is left, or the next.
abbrev pub Next : List ℕ → Mem → ℕ → List ℕ → Token → Type 0
Next ds m start cs t =
    ((skip ds cs ≡ []) × (t.token ≡ 0) × (t.last ≡ 0) × (t.mem ≡ m))
    ⊎ ((skip ds cs ≢ []) × Cut ds m (start + length (leading ds cs)) (skip ds cs) t)

-- From the first byte that is no delimiter, if there is one.
take_token_lem :
    (fuel : ℕ) (m : Mem) (p delim : ℕ) (cs ds : List ℕ)
    → p ≢ 0
    → IsString m p cs
    → IsString m delim ds
    → length cs + length ds < fuel
    → (t : Token) × (take_token fuel m p delim ≡ some t)
      × (((cs ≡ []) × (t.token ≡ 0) × (t.last ≡ 0) × (t.mem ≡ m)) ⊎ ((cs ≢ []) × Cut ds m p cs t))
unfolding take_token
take_token_lem fuel m p delim [] ds ne s d h =
    let t : (m p == 0) ≡ true = ground arith in
    (record { mem = m; last = 0; token = 0 }, rw t, inl (refl, refl, refl, refl))
take_token_lem fuel m p delim (c ∷ cs) ds ne s d h =
    let t : (m p == 0) ≡ false = let n : c ≢ 0 = s.1 in let e : m p ≡ c = s.0 in ground arith in
    let w = strpbrk-word fuel m p delim (c ∷ cs) ds s d h in
    (
      end_token m p (stop m p ds (c ∷ cs) s),
      unfold stop in rw (t, w),
      inr (cons-ne-nil c cs, end_token-Cut m p ds (c ∷ cs) s ne),
    )

length-skip : (ds cs : List ℕ) → length (skip ds cs) ≤ length cs
length-skip ds [] = omega arith
length-skip ds (c ∷ cs) = ground (arith, length-skip ds cs)

strtok_start :
    (fuel : ℕ) (m : Mem) (last str delim start n : ℕ)
    → start ≡ (if str == 0 then last else str)
    → start ≢ 0
    → strspn fuel m start delim ≡ some n
    → strtok fuel m last str delim ≡ take_token fuel m (start + n) delim
unfolding strtok
strtok_start fuel m last str delim start n e ne found =
    let z : (start == 0) ≡ false = ground arith in rw (← e, z, found)

-- Passed a string, or NULL where it stopped at one before, and a string of delimiters, with fuel
-- above the sum of their lengths, `strtok` skips the delimiters in front and returns the word behind
-- them, which it ends by a NUL over the delimiter after it; the next call goes on behind that, or
-- has nothing to go on with at the end of the string. No other byte changes. With no word left it
-- returns NULL and changes no memory.
pub strtok-Next :
    (fuel : ℕ) (m : Mem) (last str delim start : ℕ) (cs ds : List ℕ)
    → start ≡ (if str == 0 then last else str)
    → start ≢ 0
    → IsString m start cs
    → IsString m delim ds
    → length cs + length ds < fuel
    → (t : Token) × (strtok fuel m last str delim ≡ some t) × Next ds m start cs t
strtok-Next fuel m last str delim start cs ds e ne s d h =
    let n = length (leading ds cs) in
    let (t, runs, next) =
      take_token_lem fuel m (start + n) delim (skip ds cs) ds (omega arith)
        (IsString-skip m start ds cs s) d (omega (arith, length-skip ds cs)) in
    let found = strspn-leading fuel m start delim cs ds s d h in
    (t, strtok_start fuel m last str delim start n e ne found ∙ runs, next)
