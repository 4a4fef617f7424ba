-- ===== src/Stdio/Buffer.antt =====
-- The end of the buffer of `kprintf` in src/lib/stdio.c.
use meringue_os.Prelude.{
  ℕ, suc, ◌+◌, ◌-◌, ◌<◌, ◌≡◌, ◌≢◌, refl, ap, ◌∙◌, true, false, ◌||◌, some, ◌==◌, leb, List, [], ◌∷◌,
  ◌++◌, length, length-append, All, arith,
}
use mathlib.Core.List.{append-nil, append_assoc}
use meringue_os.Memory.{Mem}
use meringue_os.Strings.Walks.{IsString}
use meringue_os.Stdio.Pieces.{is_specifier}
use meringue_os.Stdio.Render.{convert-unknown, IsString-behind, short_step}
use meringue_os.Stdio.{buffer_size, format_step, format_loop, kprintf, until_nul}

-- Characters that stand for themselves.
abbrev pub Plain : ℕ → Type 0
Plain c = (c ≢ 0) × (c ≢ b'%')

Plain-run :
    (fuel : ℕ) (m : Mem) (p : ℕ) (args out xs ys : List ℕ)
    → All Plain xs
    → IsString m p (xs ++ ys)
    → length out + length xs < buffer_size - 1
    → format_loop (length xs + fuel) m p args out
      ≡ format_loop fuel m (p + length xs) args (out ++ xs)
unfolding format_loop format_step
Plain-run fuel m p args out [] ys a s h =
    let e : p + 0 ≡ p = omega arith in
    let f : 0 + fuel ≡ fuel = omega arith in rw (e, f, append-nil out) refl
Plain-run fuel m p args out (x ∷ xs) ys ((nz, np), a) s h =
    let e : m p ≡ x = s.0 in
    let stop : (m p == 0) ≡ false = ground arith in
    let room : leb (buffer_size - 1) (length out) ≡ false = ground arith in
    let conv : (m p == b'%') ≡ false = ground arith in
    let next : p + suc (length xs) ≡ p + 1 + length xs = omega arith in
    let f : suc (length xs) + fuel ≡ suc (length xs + fuel) = omega arith in
    let more = length-append out (x ∷ []) in
    rw (f, stop, room, conv, next, e)
      (Plain-run fuel m (p + 1) args (out ++ x ∷ []) xs ys a s.2 (omega (arith, more))
        ∙ ap (λ t. format_loop fuel m (p + 1 + length xs) args t) (append_assoc out (x ∷ []) xs))

overrun_end :
    (fuel : ℕ) (m : Mem) (q c : ℕ) (args xs : List ℕ)
    → length xs ≡ 1022
    → is_specifier c ≡ false
    → IsString m q (b'%' ∷ c ∷ [])
    → format_loop (suc (suc fuel)) m q args xs ≡ some (xs ++ b'%' ∷ c ∷ [])
unfolding format_loop
overrun_end fuel m q c args xs full unknown t =
    let stop : (m q == 0) ≡ false = let e : m q ≡ b'%' = t.0 in ground arith in
    let room : leb (buffer_size - 1) (length xs) ≡ false = ground arith in
    let step : format_step (suc (suc fuel)) m q args xs ≡ some (q + 2, args, xs ++ b'%' ∷ c ∷ []) =
      short_step (suc (suc fuel)) m q c [] args xs t (ground arith)
      ∙ (rw (convert-unknown (suc (suc fuel)) m c xs args unknown) refl) in
    let over : leb (buffer_size - 1) (length (xs ++ b'%' ∷ c ∷ [])) ≡ true =
      ground (arith, length-append xs (b'%' ∷ c ∷ [])) in
    let done : (m (q + 2) == 0 || leb (buffer_size - 1) (length (xs ++ b'%' ∷ c ∷ []))) ≡ true =
      ground arith in
    rw (stop, room, step, done) refl

-- Behind 1022 plain characters, a `%` and a character that is no specifier make `kprintf` write 1024 bytes: the
-- whole buffer, and the NUL behind it.
pub kprintf_overrun :
    (fuel : ℕ) (m : Mem) (p c : ℕ) (args xs : List ℕ)
    → All Plain xs
    → length xs ≡ 1022
    → is_specifier c ≡ false
    → IsString m p (xs ++ b'%' ∷ c ∷ [])
    → kprintf (length xs + suc (suc fuel)) m p args
      ≡ some (until_nul (xs ++ b'%' ∷ c ∷ []), buffer_size)
unfolding kprintf
kprintf_overrun fuel m p c args xs plain full unknown s =
    let t = IsString-behind m p xs (b'%' ∷ c ∷ []) s in
    let run = Plain-run (suc (suc fuel)) m p args [] xs (b'%' ∷ c ∷ []) plain s (omega arith) in
    let all : length (xs ++ b'%' ∷ c ∷ []) ≡ buffer_size =
      omega (arith, length-append xs (b'%' ∷ c ∷ [])) in
    rw (run, overrun_end fuel m (p + length xs) c args xs full unknown t, all) refl
