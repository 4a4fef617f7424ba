-- ===== src/Stdio/Render.antt =====
-- `kprintf` of src/lib/stdio.c against the description of its formats by pieces.
use meringue_os.Prelude.{
  ℕ, zero, suc, ◌+◌, ◌-◌, ◌%◌, ◌^◌, ◌<◌, ◌≡◌, ◌≢◌, refl, ap, sym, ◌∙◌, true, false, some, ◌>>=◌,
  ◌==◌, leb, ltb, List, [], ◌∷◌, ◌++◌, length, length-append, All, arith,
}
use mathlib.Core.List.{append-nil, append_assoc}
use meringue_os.Memory.{Mem}
use meringue_os.Strings.Walks.{IsString, strlen-length}
use meringue_os.Stdio.{
  buffer_size, put_text, bytes_at, string_text, convert, modifier, format_step, format_loop,
  until_nul, kprintf,
}
use meringue_os.Stdio.Numerals.{number-numeral, signed_number-32}
use meringue_os.Stdio.Pieces.{
  Piece, literal, percent, character, string, integer, unsigned_int, long_unsigned, hex, short_hex,
  unknown, spelling, argument, text_of, is_specifier, IsPiece, spellings, arguments, texts,
}

put_text-append :
    (out text : List ℕ) → length out + length text < buffer_size → put_text out text ≡ out ++ text
unfolding put_text
put_text-append out text h =
    let t : ltb (buffer_size - length out - 1) (length text) ≡ false = ground arith in rw t refl

bytes_at-IsString :
    (m : Mem) (p : ℕ) (cs : List ℕ) → IsString m p cs → bytes_at m p (length cs) ≡ cs
unfolding bytes_at
bytes_at-IsString m p [] s = refl
bytes_at-IsString m p (c ∷ cs) s = rw (s.0, bytes_at-IsString m (p + 1) cs s.2) refl

string_text-IsString :
    (fuel : ℕ) (m : Mem) (a : ℕ) (cs : List ℕ)
    → a ≢ 0
    → IsString m a cs
    → length cs < fuel
    → string_text fuel m a ≡ some cs
unfolding string_text
string_text-IsString fuel m a cs ne s h =
    let z : (a == 0) ≡ false = ground arith in
    rw (z, strlen-length fuel m a cs s h, bytes_at-IsString m a cs s) refl

-- What follows a `%`.
module _ (fuel : ℕ) (m : Mem) (p c : ℕ) (rest args out : List ℕ) where
  pub short_step :
      IsString m p (b'%' ∷ c ∷ rest)
      → c ≢ b'l'
      → format_step fuel m p args out
        ≡ (convert fuel m false c out args >>= λ r. some (p + 2, r.1, r.0))
  unfolding format_step modifier
  short_step s ne =
      let t : (m (p + 1) == b'l') ≡ false = let e : m (p + 1) ≡ c = s.2.0 in ground arith in
      let e : p + 1 + 1 ≡ p + 2 = omega arith in rw (s.0, t, s.2.0, e) refl

  long_step :
      IsString m p (b'%' ∷ b'l' ∷ b'l' ∷ c ∷ rest)
      → format_step fuel m p args out
        ≡ (convert fuel m true c out args >>= λ r. some (p + 4, r.1, r.0))
  unfolding format_step modifier
  long_step s =
      let e : m (p + 1 + 2) ≡ c =
        let f : p + 1 + 1 + 1 ≡ p + 1 + 2 = omega arith in rw f at (s.2.2.2.0) in
      let g : p + 1 + 2 + 1 ≡ p + 4 = omega arith in rw (s.0, s.2.0, s.2.2.0, e, g) refl

pub convert-unknown :
    (fuel : ℕ) (m : Mem) (c : ℕ) (out args : List ℕ)
    → is_specifier c ≡ false
    → convert fuel m false c out args ≡ some (out ++ b'%' ∷ c ∷ [], args)
unfolding convert
convert-unknown fuel m c out args h = ground arith

-- One piece.
module _ (fuel : ℕ) (m : Mem) (p bound : ℕ) (rest args out : List ℕ) (enough : bound < fuel) where
  piece_step :
      (x : Piece)
      → IsPiece m bound x
      → IsString m p (spelling x ++ rest)
      → length out + length (text_of x) < buffer_size
      → format_step fuel m p (argument x ++ args) out
        ≡ some (p + length (spelling x), args, out ++ text_of x)
  unfolding convert
  piece_step (literal c) ok s h =
      let t : (m p == b'%') ≡ false =
        let e : m p ≡ c = s.0 in let n : c ≢ b'%' = ok.1 in ground arith in
      unfold format_step in rw (t, s.0) refl
  piece_step percent ok s h = short_step fuel m p b'%' rest args out s (omega arith)
  piece_step (character a) ok s h = short_step fuel m p b'c' rest (a ∷ args) out s (omega arith)
  piece_step (string a cs) ok s h =
      short_step fuel m p b's' rest (a ∷ args) out s (omega arith)
      ∙ (rw (string_text-IsString fuel m a cs ok.0 ok.1 (omega arith), put_text-append out cs h)
          refl)
  piece_step (integer v) ok s h =
      short_step fuel m p b'd' rest (v ∷ args) out s (omega arith)
      ∙ (rw (signed_number-32 (v % 2 ^ 32) (omega arith), put_text-append out _ h) refl)
  piece_step (unsigned_int v) ok s h =
      short_step fuel m p b'u' rest (v ∷ args) out s (omega arith)
      ∙ (rw
          (
            number-numeral false 10 (v % 2 ^ 32) (omega arith) (omega arith),
            put_text-append out _ h,
          )
          refl)
  piece_step (long_unsigned v) ok s h =
      long_step fuel m p b'u' rest (v ∷ args) out s
      ∙ (rw
          (
            number-numeral false 10 (v % 2 ^ 64) (omega arith) (omega arith),
            put_text-append out _ h,
          )
          refl)
  piece_step (hex false v) ok s h =
      long_step fuel m p b'x' rest (v ∷ args) out s
      ∙ (rw
          (
            number-numeral false 16 (v % 2 ^ 64) (omega arith) (omega arith),
            put_text-append out _ h,
          )
          refl)
  piece_step (hex true v) ok s h =
      long_step fuel m p b'X' rest (v ∷ args) out s
      ∙ (rw
          (number-numeral true 16 (v % 2 ^ 64) (omega arith) (omega arith), put_text-append out _ h)
          refl)
  piece_step (short_hex v) ok s h =
      short_step fuel m p b'x' rest (v ∷ args) out s (omega arith)
      ∙ (rw
          (
            number-numeral false 16 (v % 2 ^ 32) (omega arith) (omega arith),
            put_text-append out _ h,
          )
          refl)
  piece_step (unknown c) ok s h =
      short_step fuel m p c rest args out s (ground arith)
      ∙ (rw (convert-unknown fuel m c out args ok) refl)

-- A format ends where its string does.
spelling-pos :
    (x : Piece) (m : Mem) (p bound : ℕ) (rest : List ℕ)
    → IsPiece m bound x
    → IsString m p (spelling x ++ rest)
    → (m p == 0) ≡ false
spelling-pos (literal c) m p bound rest ok s =
    let e : m p ≡ c = s.0 in let n : c ≢ 0 = ok.0 in ground arith
spelling-pos percent m p bound rest ok s = ground arith
spelling-pos (character a) m p bound rest ok s = ground arith
spelling-pos (string a cs) m p bound rest ok s = ground arith
spelling-pos (integer v) m p bound rest ok s = ground arith
spelling-pos (unsigned_int v) m p bound rest ok s = ground arith
spelling-pos (long_unsigned v) m p bound rest ok s = ground arith
spelling-pos (hex false v) m p bound rest ok s = ground arith
spelling-pos (hex true v) m p bound rest ok s = ground arith
spelling-pos (short_hex v) m p bound rest ok s = ground arith
spelling-pos (unknown c) m p bound rest ok s = ground arith

pub IsString-behind :
    (m : Mem) (p : ℕ) (xs ys : List ℕ) → IsString m p (xs ++ ys) → IsString m (p + length xs) ys
IsString-behind m p [] ys s = let e : p + 0 ≡ p = omega arith in rw e s
IsString-behind m p (x ∷ xs) ys s =
    let e : p + suc (length xs) ≡ p + 1 + length xs = omega arith in
    rw e (IsString-behind m (p + 1) xs ys s.2)

format_loop-texts :
    (fuel : ℕ) (m : Mem) (p bound : ℕ) (xs : List Piece) (out extra : List ℕ)
    → All (IsPiece m bound) xs
    → IsString m p (spellings xs)
    → length out + length (texts xs) < buffer_size - 1
    → length xs + bound < fuel
    → format_loop fuel m p (arguments xs ++ extra) out ≡ some (out ++ texts xs)
unfolding format_loop
format_loop-texts zero m p bound xs out extra ok s h enough = absurd (omega arith)
format_loop-texts (suc fuel) m p bound [] out extra ok s h enough =
    let t : (m p == 0) ≡ true = ground arith in rw t (ap some (sym (append-nil out)))
format_loop-texts (suc fuel) m p bound (x ∷ xs) out extra (px, ok) s h enough =
    let more = length-append (text_of x) (texts xs) in
    let more' = length-append out (text_of x) in
    let t = spelling-pos x m p bound (spellings xs) px s in
    let u : leb (buffer_size - 1) (length out) ≡ false = ground arith in
    let step =
      piece_step (suc fuel) m p bound (spellings xs) (arguments xs ++ extra) out (omega arith) x px
        s (omega (arith, more)) in
    let args = append_assoc (argument x) (arguments xs) extra in
    rw (args, t, u, step)
      (format_loop-texts fuel m (p + length (spelling x)) bound xs (out ++ text_of x) extra ok
          (IsString-behind m p (spelling x) (spellings xs) s) (omega (arith, more, more'))
          (omega arith)
        ∙ ap some (append_assoc out (text_of x) (texts xs)))

-- For a format that is spelled by pieces (characters, %%, %c, %s, %d, %u, %x, %llu, %llx, %llX, and a %
-- before a character that is no specifier, which takes no argument and stands for itself), with at
-- least the arguments that they take and a text of fewer than 1023 characters in all, `kprintf` sends
-- the texts of the pieces in order, up to the first NUL, and returns their length; the fuel is more
-- than the number of pieces and the length of each string argument together.
pub kprintf-texts :
    (fuel : ℕ) (m : Mem) (p bound : ℕ) (xs : List Piece) (extra : List ℕ)
    → All (IsPiece m bound) xs
    → IsString m p (spellings xs)
    → length (texts xs) < buffer_size - 1
    → length xs + bound < fuel
    → kprintf fuel m p (arguments xs ++ extra) ≡ some (until_nul (texts xs), length (texts xs))
unfolding kprintf
kprintf-texts fuel m p bound xs extra ok s h enough =
    rw (format_loop-texts fuel m p bound xs [] extra ok s (omega arith) enough) refl
