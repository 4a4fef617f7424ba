-- ===== src/Numbers.antt =====
-- `simple_strtoull` and `simple_strtoul` of src/lib/stdlib_stubs.c, on strings in memory. A walk
-- over the string runs on fuel. `base` is an `int`; negative ones, which no caller passes, are left
-- out (the code refuses them as it does 1).
pub mod Digits
pub mod Parse
use meringue_os.Prelude.{
  ℕ, zero, suc, ◌+◌, ◌-◌, ◌*◌, ◌/◌, ◌%◌, Bool, true, false, ◌&&◌, ◌||◌, not, Option, none, some,
  ◌>>=◌, ◌==◌, leb, ltb, if◌then◌else◌, word_mod,
}
use meringue_os.Memory.{Mem}

abbrev pub u64_max : ℕ
u64_max = word_mod - 1

abbrev pub is_space : ℕ → Bool
is_space c = c == b' ' || c == b'\t' || c == b'\n' || c == b'\r' || c == 12 || c == 11

-- The value of a character as a digit, in a base that is large enough.
abbrev pub digit_of : ℕ → Option ℕ
digit_of c =
    if leb b'0' c && leb c b'9'
    then some (c - b'0')
    else if leb b'a' c && leb c b'z'
    then some (c - b'a' + 10)
    else if leb b'A' c && leb c b'Z'
    then some (c - b'A' + 10)
    else none

-- The character is a digit of the base.
abbrev pub digit_in : ℕ → ℕ → Option ℕ
digit_in base c = digit_of c >>= λ d. if leb base d then none else some d

unfoldable pub skip_space : ℕ → Mem → ℕ → Option ℕ
skip_space zero m nptr = none
skip_space (suc fuel) m nptr =
    let rest = skip_space fuel m (nptr + 1) in if is_space (m nptr) then rest else some nptr

unfoldable pub skip_sign : Mem → ℕ → ℕ
skip_sign m nptr = if m nptr == b'+' then nptr + 1 else if m nptr == b'-' then nptr + 1 else nptr

-- The base, and where the digits begin.
unfoldable pub pick_base : Mem → ℕ → ℕ → ℕ × ℕ
pick_base m nptr base =
    if (base == 0 || base == 16)
      && (m nptr == b'0' && (m (nptr + 1) == b'x' || m (nptr + 1) == b'X'))
    then (16, nptr + 2)
    else if base == 0
    then (10, nptr)
    else (base, nptr)

-- After an overflow: the digits that are left are passed over.
unfoldable pub skip_digits : ℕ → Mem → ℕ → ℕ → Option ℕ
skip_digits zero m base nptr = none
skip_digits (suc fuel) m base nptr =
    let rest = skip_digits fuel m base (nptr + 1) in
    elim (digit_in base (m (nptr + 1))) [ none ↦ some (nptr + 1) | some d ↦ rest ]

-- The loop over the digits: the result, and the place behind the last digit.
unfoldable pub digit_loop : ℕ → Mem → ℕ → ℕ → ℕ → Option (ℕ × ℕ)
digit_loop zero m base nptr result = none
digit_loop (suc fuel) m base nptr result = elim (digit_in base (m nptr)) [
  | none ↦ some (result, nptr)
  | some d ↦
      let rest = digit_loop fuel m base (nptr + 1) (result * base + d) in
      let over = skip_digits fuel m base nptr >>= λ end. some (u64_max, end) in
      if ltb (u64_max / base) result || (result == u64_max / base && ltb (u64_max % base) d)
      then over
      else rest
]

-- The result, and what `*endptr` becomes, where `endptr` is not NULL.
unfoldable pub simple_strtoull : ℕ → Mem → ℕ → ℕ → Option (ℕ × ℕ)
simple_strtoull fuel m nptr base = skip_space fuel m nptr >>= λ start.
    let (base', first) = pick_base m (skip_sign m start) base in
    if ltb base' 2 || ltb 16 base' then some (0, nptr) else digit_loop fuel m base' first 0

-- ULONG_MAX is UINT64_MAX on AArch64.
unfoldable pub simple_strtoul : ℕ → Mem → ℕ → ℕ → Option (ℕ × ℕ)
simple_strtoul fuel m nptr base = simple_strtoull fuel m nptr base >>= λ r.
    if ltb u64_max r.0 then some (u64_max, r.1) else some r
