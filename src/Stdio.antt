-- ===== src/Stdio.antt =====
-- `kprintf` of src/lib/stdio.c. What stands in `buffer` so far is a list of bytes, whose length is
-- the position of `buf_ptr`; the arguments that are left are the 64-bit values of their registers,
-- addresses included. `none` means that the walk over a string ran out of fuel, that an argument is
-- missing, or that a number was written before the start of `num_buf`; what C does then is undefined.
pub mod Numerals
pub mod Pieces
pub mod Render
pub mod Reading
pub mod Buffer
pub mod Calls
use meringue_os.Prelude.{
  ℕ, zero, suc, ◌+◌, ◌-◌, ◌*◌, ◌/◌, ◌%◌, ◌^◌, Bool, true, false, ◌&&◌, ◌||◌, not, Option, none,
  some, ◌>>=◌, ◌==◌, leb, ltb, if◌then◌else◌, List, [], ◌∷◌, ◌++◌, length, take, word_mod,
}
use meringue_os.Memory.{Mem}
use meringue_os.Strings.{strlen}

-- PRINTF_BUFFER_SIZE, and MAX_INT_DIGITS less the place of the NUL.
abbrev pub buffer_size : ℕ
buffer_size = 1024

abbrev pub number_room : ℕ
number_room = 20

-- A character of "0123456789abcdef" or of "0123456789ABCDEF".
abbrev pub digit_char : Bool → ℕ → ℕ
digit_char upper d =
    if ltb d 10 then b'0' + d else if upper then b'A' + (d - 10) else b'a' + (d - 10)

-- do { *--num_ptr = digit(value % base); value /= base; } while (value > 0); `room` places are left
-- before `num_ptr`, and the characters behind it are `text`. Returned with the places that are left.
unfoldable pub number_loop : Bool → ℕ → ℕ → ℕ → List ℕ → Option (ℕ × List ℕ)
number_loop upper base zero value text = none
number_loop upper base (suc room) value text =
    let rest =
      number_loop upper base room (value / base) (digit_char upper (value % base) ∷ text) in
    if value / base == 0 then some (room, digit_char upper (value % base) ∷ text) else rest

unfoldable pub number : Bool → ℕ → ℕ → Option (List ℕ)
number upper base value = number_loop upper base number_room value [] >>= λ r. some (r.1)

-- %d of a value of `bits` bits: the digits of its magnitude, and a sign before them.
unfoldable pub signed_number : ℕ → ℕ → Option (List ℕ)
signed_number bits value =
    let negative = leb (2 ^ (bits - 1)) value in
    let magnitude = if negative then 2 ^ bits - value else value in
    number_loop false 10 number_room magnitude [] >>= λ r.
    if negative then (if r.0 == 0 then none else some (b'-' ∷ r.1)) else some r.1

-- do { … } while (value > 0 || digit_count < 16); of %p.
unfoldable pub pointer_loop : ℕ → ℕ → ℕ → List ℕ → Option (List ℕ)
pointer_loop zero count value text = none
pointer_loop (suc room) count value text =
    let rest = pointer_loop room (count + 1) (value / 16) (digit_char false (value % 16) ∷ text) in
    if value / 16 == 0 && leb 16 (count + 1)
    then some (digit_char false (value % 16) ∷ text)
    else rest

-- The copy of a text into the buffer, as far as it has room, as %s and the numbers make it.
unfoldable pub put_text : List ℕ → List ℕ → List ℕ
put_text out text =
    if ltb (buffer_size - length out - 1) (length text)
    then out ++ take (buffer_size - length out - 1) text
    else out ++ text

-- The bytes of a string argument.
unfoldable pub bytes_at : Mem → ℕ → ℕ → List ℕ
bytes_at m p zero = []
bytes_at m p (suc n) = m p ∷ bytes_at m (p + 1) n

abbrev pub null_text : List ℕ
null_text = b'(' ∷ b'n' ∷ b'u' ∷ b'l' ∷ b'l' ∷ b')' ∷ []

unfoldable pub string_text : ℕ → Mem → ℕ → Option (List ℕ)
string_text fuel m str =
    if str == 0 then some null_text else strlen fuel m str >>= λ len. some (bytes_at m str len)

-- `va_arg`: the next argument.
abbrev pub va_arg : List ℕ → Option (ℕ × List ℕ)
va_arg [] = none
va_arg (a ∷ rest) = some (a, rest)

-- The bits of an integer argument, after `l` or `ll` 64.
abbrev pub width : Bool → ℕ
width long = if long then 64 else 32

-- A conversion that puts the text of the next argument into the buffer.
abbrev pub put_arg : (ℕ → Option (List ℕ)) → List ℕ → List ℕ → Option (List ℕ × List ℕ)
put_arg text out args = va_arg args >>= λ (a, rest). text a >>= λ t. some (put_text out t, rest)

abbrev pub put_char : List ℕ → List ℕ → Option (List ℕ × List ℕ)
put_char out args = va_arg args >>= λ (a, rest). some (out ++ (a % 256) ∷ [], rest)

-- "0x", where there is room for it.
abbrev pub put_prefix : List ℕ → List ℕ
put_prefix out = if ltb (length out + 2) (buffer_size - 1) then out ++ b'0' ∷ b'x' ∷ [] else out

-- `switch (*format)` at the specifier `c`.
unfoldable pub convert : ℕ → Mem → Bool → ℕ → List ℕ → List ℕ → Option (List ℕ × List ℕ)
convert fuel m long c out args =
    let bits = width long in
    if c == b'c'
    then put_char out args
    else if c == b's'
    then put_arg (string_text fuel m) out args
    else if c == b'd' || c == b'i'
    then put_arg (λ a. signed_number bits (a % 2 ^ bits)) out args
    else if c == b'u'
    then put_arg (λ a. number false 10 (a % 2 ^ bits)) out args
    else if c == b'x' || c == b'X'
    then put_arg (λ a. number (c == b'X') 16 (a % 2 ^ bits)) out args
    else if c == b'p'
    then put_arg (λ a. pointer_loop number_room 0 a []) (put_prefix out) args
    else if c == b'%'
    then some (out ++ b'%' ∷ [], args)
    else some (out ++ b'%' ∷ c ∷ [], args)

-- The length modifier behind a `%`: how far it reaches, and whether there is one.
unfoldable pub modifier : Mem → ℕ → ℕ × Bool
modifier m p =
    if m p == b'l' then (if m (p + 1) == b'l' then (p + 2, true) else (p + 1, true)) else (p, false)

-- The body of the loop: where the format goes on, the arguments that are left, and the buffer.
unfoldable pub format_step : ℕ → Mem → ℕ → List ℕ → List ℕ → Option (ℕ × List ℕ × List ℕ)
format_step fuel m format args out =
    let (p, long) = modifier m (format + 1) in
    if m format == b'%'
    then (convert fuel m long (m p) out args >>= λ (text, left). some (p + 1, left, text))
    else some (format + 1, args, out ++ m format ∷ [])

unfoldable pub format_loop : ℕ → Mem → ℕ → List ℕ → List ℕ → Option (List ℕ)
format_loop zero m format args out = none
format_loop (suc fuel) m format args out =
    let rest = format_step (suc fuel) m format args out >>= λ (p, left, text).
    format_loop fuel m p left text in
    if m format == 0 || leb (buffer_size - 1) (length out) then some out else rest

-- What is sent: the buffer up to the first NUL.
abbrev pub until_nul : List ℕ → List ℕ
until_nul [] = []
until_nul (c ∷ cs) = if c == 0 then [] else c ∷ until_nul cs

-- The characters that are sent, and the result.
unfoldable pub kprintf : ℕ → Mem → ℕ → List ℕ → Option (List ℕ × ℕ)
kprintf fuel m format args =
    format_loop fuel m format args [] >>= λ out. some (until_nul out, length out)
