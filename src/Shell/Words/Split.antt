-- ===== src/Shell/Words/Split.antt =====
-- The words that `shell_loop` of src/shell/shell.c finds in a line.
use meringue_os.Prelude.{
  ℕ, zero, suc, ◌+◌, ◌≤◌, ◌<◌, ◌≡◌, ◌≢◌, refl, ap, sym, ◌∙◌, true, false, none, some, ◌==◌, List,
  [], ◌∷◌, length, arith, Bool-cases, inl, inr,
}
use mathlib.Core.Path.{subst}
use meringue_os.Memory.{Mem, within}
use meringue_os.Strings.{Token, strtok}
use meringue_os.Strings.Walks.{IsString, elem, leading, word}
use meringue_os.Strings.Tokens.{skip, behind, IsString-eq, Next, strtok-Next}
use meringue_os.Shell.Words.{max_args, token_loop, split_line}

-- The first words of a text, at most `n` of them.
unfoldable pub first_words : ℕ → List ℕ → List ℕ → List (List ℕ)
first_words zero ds cs = []
first_words (suc n) ds cs = elim (skip ds cs) [
  | [] ↦ []
  | c ∷ rest ↦
      word ds (c ∷ rest) ∷ elim (behind ds (c ∷ rest)) [ none ↦ [] | some r ↦ first_words n ds r ]
]

-- Each address points at its text.
abbrev pub Strings : Mem → List ℕ → List (List ℕ) → Type 0
Strings m [] [] = Unit
Strings m (p ∷ ps) (w ∷ ws) = IsString m p w × Strings m ps ws
Strings m [] (w ∷ ws) = ⊥
Strings m (p ∷ ps) [] = ⊥

length-leading : (ds cs : List ℕ) → length (leading ds cs) + length (skip ds cs) ≡ length cs
length-leading ds [] = omega arith
length-leading ds (c ∷ cs) = ground (arith, length-leading ds cs)

length-behind :
    (ds cs r : List ℕ) → behind ds cs ≡ some r → length cs ≡ length (word ds cs) + 1 + length r
length-behind ds [] r e = absurd (cc)
length-behind ds (c ∷ cs) r e = elim (Bool-cases (elem c ds)) [
  | inl y ↦ let f : some cs ≡ some r = rw y at e in let g : cs ≡ r = cc in rw (y, ← g) (omega arith)
  | inr n ↦ let ih = length-behind ds cs r (rw n at e) in rw n (omega (arith, ih))
]

-- Words that none, one and more stand behind.
words_none : (n : ℕ) (ds cs : List ℕ) → skip ds cs ≡ [] → first_words n ds cs ≡ []
unfolding first_words
words_none zero ds cs e = refl
words_none (suc n) ds cs e = rw (e, first_words) refl

words_last :
    (n : ℕ) (ds cs s : List ℕ)
    → skip ds cs ≡ s
    → s ≢ []
    → behind ds s ≡ none
    → first_words (suc n) ds cs ≡ word ds s ∷ []
unfolding first_words
words_last n ds cs [] e ne b = absurd (ne refl)
words_last n ds cs (c ∷ s) e ne b = rw (e, first_words, b) refl

words_more :
    (n : ℕ) (ds cs s r : List ℕ)
    → skip ds cs ≡ s
    → s ≢ []
    → behind ds s ≡ some r
    → first_words (suc n) ds cs ≡ word ds s ∷ first_words n ds r
unfolding first_words
words_more n ds cs [] r e ne b = absurd (ne refl)
words_more n ds cs (c ∷ s) r e ne b = rw (e, first_words, b) refl

length-word : (ds cs : List ℕ) → length (word ds cs) ≤ length cs
length-word ds [] = omega arith
length-word ds (c ∷ cs) = ground (arith, length-word ds cs)

-- The first word is no longer than the text.
first_le :
    (n : ℕ) (ds cs s w : List ℕ) (ws : List (List ℕ))
    → skip ds cs ≡ s
    → first_words n ds cs ≡ w ∷ ws
    → length w ≤ length s
unfolding first_words
first_le zero ds cs s w ws e f = absurd (cc)
first_le (suc n) ds cs [] w ws e f =
    let g : ◌≡◌ {A = List (List ℕ)} [] (w ∷ ws) = rw (e, first_words) at f in absurd (cc)
first_le (suc n) ds cs (c ∷ s) w ws e f =
    let g : word ds (c ∷ s) ∷ (elim (behind ds (c ∷ s)) as (λ _. List (List ℕ)) [
      | none ↦ []
      | some r ↦ first_words n ds r
    ])
        ≡ w ∷ ws =
      rw (e, first_words) at f in
    let h : word ds (c ∷ s) ≡ w = cc in rw (← h) (length-word ds (c ∷ s))

pub first_words-le :
    (n : ℕ) (ds cs w : List ℕ) (ws : List (List ℕ))
    → first_words n ds cs ≡ w ∷ ws
    → length w ≤ length cs
first_words-le n ds cs w ws f =
    omega (arith, first_le n ds cs (skip ds cs) w ws refl f, length-leading ds cs)

-- `strtok` writes among the bytes of the text that it is passed.
Next-kept :
    (ds cs : List ℕ) (m : Mem) (start : ℕ) (t : Token)
    → Next ds m start cs t
    → (a : ℕ) → within start (length cs) a ≡ false
    → t.mem a ≡ m a
Next-kept ds cs m start t (inl (e, z, l, same)) a o = ap (λ k. k a) same
Next-kept ds cs m start t (inr (ne, cut)) a o = cut.kept a (ground (arith, length-leading ds cs))

-- Without a place to go on from, `strtok` returns NULL.
strtok-null :
    (fuel : ℕ) (m : Mem) (last delim : ℕ)
    → last ≡ 0
    → strtok fuel m last 0 delim ≡ some (record { mem = m; last = 0; token = 0 })
unfolding strtok
strtok-null fuel m last delim e = rw e refl

-- The loop ends at NULL.
loop-null :
    (fuel delim slots : ℕ) (t : Token) → t.token ≡ 0 → token_loop fuel delim slots t ≡ some (t, [])
unfolding token_loop
loop-null fuel delim zero t z = refl
loop-null fuel delim (suc slots) t z = let e : (t.token == 0) ≡ true = ground arith in rw e refl

module _ (fuel delim : ℕ) (ds : List ℕ) where
  -- What the loop does from a token on that is the next of the text `cs` at `start`.
  abbrev Found : ℕ → ℕ → List ℕ → Token → Type 0
  Found slots start cs t =
      (t' : Token) × (argv : List ℕ) × (token_loop fuel delim slots t ≡ some (t', argv))
      × Strings t'.mem argv (first_words slots ds cs)
      × ((a : ℕ) → within start (length cs) a ≡ false → t'.mem a ≡ t.mem a)

  loop-Found :
      (slots : ℕ) (m : Mem) (start : ℕ) (cs : List ℕ) (t : Token)
      → start ≢ 0
      → Next ds m start cs t
      → IsString t.mem delim ds
      → ((a : ℕ) → within delim (suc (length ds)) a ≡ true → within start (length cs) a ≡ false)
      → length cs + length ds < fuel
      → Found slots start cs t
  unfolding token_loop
  loop-Found zero m start cs t ne next d off enough =
      (t, [], refl, unfold first_words in tt, λ a o. refl)
  loop-Found (suc slots) m start cs t ne (inl (e, z, l, same)) d off enough = (
    t,
    [],
    loop-null fuel delim (suc slots) t z,
    rw (words_none (suc slots) ds cs e) tt,
    λ a o. refl,
  )
  loop-Found (suc slots) m start cs t ne (inr (some_left, cut)) d off enough =
      let q = start + length (leading ds cs) in
      let w = word ds (skip ds cs) in
      let here : t.token ≡ q = cut.word_at in
      let tz : (t.token == 0) ≡ false = ground arith in
      let lead = length-leading ds cs in
      elim cut.rest [
        | inl (last, z) ↦
            let t1 : Token = record { mem = t.mem; last = 0; token = 0 } in
            (
              t1,
              t.token ∷ [],
              rw (tz, strtok-null fuel t.mem t.last delim z, loop-null fuel delim slots t1 refl)
                  refl,
              rw (words_last slots ds cs (skip ds cs) refl some_left last)
                  (subst (λ p. IsString t.mem p w) (sym here) cut.token, tt),
              λ a o. refl,
            )
        | inr (r, got, at, s) ↦
            let size = length-behind ds (skip ds cs) r got in
            let at' : t.last ≡ q + length w + 1 = at in
            let (t1, runs1, next1) =
              strtok-Next fuel t.mem t.last 0 delim t.last r ds refl (omega arith) s d
                (omega arith) in
            let same = Next-kept ds r t.mem t.last t1 next1 in
            let d1 : IsString t1.mem delim ds =
              IsString-eq t.mem t1.mem delim ds (λ a x. same a (ground (arith, off a))) d in
            let (t', argv, runs, strings, kept) =
              loop-Found slots t.mem t.last r t1 (omega arith) next1 d1
                (λ a x. ground (arith, off a)) (omega arith) in
            let first : IsString t'.mem q w =
              IsString-eq t.mem t'.mem q w (λ a x. kept a (ground arith) ∙ same a (ground arith))
                cut.token in
            (
              t',
              t.token ∷ argv,
              rw (tz, runs1, runs) refl,
              rw (words_more slots ds cs (skip ds cs) r refl some_left got)
                  (subst (λ p. IsString t'.mem p w) (sym here) first, strings),
              λ a o. kept a (ground arith) ∙ same a (ground arith),
            )
      ]

-- Of a line in a buffer that the string of delimiters is apart from, with fuel above the sum of their
-- lengths, `split_line` returns the addresses of the first ten words: at the end each of them has its
-- word, as a string. No byte outside the line changes.
pub split_line-words :
    (fuel : ℕ) (m : Mem) (strtok_last cmd_buffer delim : ℕ) (cs ds : List ℕ)
    → cmd_buffer ≢ 0
    → IsString m cmd_buffer cs
    → IsString m delim ds
    → ((a : ℕ) → within delim (suc (length ds)) a ≡ true → within cmd_buffer (length cs) a ≡ false)
    → length cs + length ds < fuel
    → (t : Token) × (argv : List ℕ) × (split_line fuel m strtok_last cmd_buffer delim
        ≡ some (t, argv))
      × Strings t.mem argv (first_words max_args ds cs)
      × ((a : ℕ) → within cmd_buffer (length cs) a ≡ false → t.mem a ≡ m a)
unfolding split_line
split_line-words fuel m strtok_last cmd_buffer delim cs ds ne s d off enough =
    let z : (cmd_buffer == 0) ≡ false = ground arith in
    let (t1, runs1, next1) =
      strtok-Next fuel m strtok_last cmd_buffer delim cmd_buffer cs ds (rw z refl) ne s d enough in
    let same = Next-kept ds cs m cmd_buffer t1 next1 in
    let d1 : IsString t1.mem delim ds = IsString-eq m t1.mem delim ds (λ a x. same a (off a x)) d in
    let (t, argv, runs, strings, kept) =
      loop-Found fuel delim ds max_args m cmd_buffer cs t1 ne next1 d1 off enough in
    (t, argv, rw (runs1, runs) refl, strings, λ a o. kept a o ∙ same a o)
