-- ===== src/Strings.antt =====
-- The string functions of src/lib/string.c, on NUL-terminated strings in memory (`memset` and
-- `memcpy` are in Memory). A walk over a string runs on fuel; `none` means that it ran out, as it
-- does where no NUL is near enough.
pub mod Walks
pub mod Tokens
use meringue_os.Prelude.{
  ℕ, zero, suc, ◌+◌, Bool, true, false, ◌&&◌, ◌||◌, not, Option, none, some, ◌>>=◌, ◌==◌,
  if◌then◌else◌,
}
use meringue_os.Prelude.Int.{ℤ, pos, sub_ℕ}
use meringue_os.Memory.{Mem, write}

-- while (*s++) len++;
unfoldable pub strlen_loop : ℕ → Mem → ℕ → ℕ → Option ℕ
strlen_loop zero m s len = none
strlen_loop (suc fuel) m s len =
    let rest = strlen_loop fuel m (s + 1) (len + 1) in if m s == 0 then some len else rest

unfoldable pub strlen : ℕ → Mem → ℕ → Option ℕ
strlen fuel m s = strlen_loop fuel m s 0

unfoldable pub strcmp : ℕ → Mem → ℕ → ℕ → Option ℤ
strcmp zero m s1 s2 = none
strcmp (suc fuel) m s1 s2 =
    let rest = strcmp fuel m (s1 + 1) (s2 + 1) in
    if not (m s1 == 0) && (m s1 == m s2) then rest else some (sub_ℕ (m s1) (m s2))

-- `n` bounds the walk, so that no fuel is needed.
unfoldable pub strncmp : Mem → ℕ → ℕ → ℕ → ℤ
strncmp m s1 s2 zero = pos 0
strncmp m s1 s2 (suc n) =
    let rest = strncmp m (s1 + 1) (s2 + 1) n in
    if not (m s1 == 0) && (m s1 == m s2) then rest else sub_ℕ (m s1) (m s2)

-- The inner loop of `strspn` and `strpbrk`: whether `c` is in the string at `a`.
unfoldable pub found_in : ℕ → Mem → ℕ → ℕ → Option Bool
found_in zero m c a = none
found_in (suc fuel) m c a =
    let rest = found_in fuel m c (a + 1) in
    if m a == 0 then some false else if c == m a then some true else rest

unfoldable pub strspn_loop : ℕ → Mem → ℕ → ℕ → ℕ → Option ℕ
strspn_loop zero m s accept count = none
strspn_loop (suc fuel) m s accept count =
    let rest = strspn_loop fuel m (s + 1) accept (count + 1) in
    if m s == 0
    then some count
    else found_in (suc fuel) m (m s) accept >>= λ found. if found then rest else some count

unfoldable pub strspn : ℕ → Mem → ℕ → ℕ → Option ℕ
strspn fuel m s accept = strspn_loop fuel m s accept 0

-- NULL is 0.
unfoldable pub strpbrk : ℕ → Mem → ℕ → ℕ → Option ℕ
strpbrk zero m s reject = none
strpbrk (suc fuel) m s reject =
    let rest = strpbrk fuel m (s + 1) reject in
    if m s == 0
    then some 0
    else found_in (suc fuel) m (m s) reject >>= λ found. if found then some s else rest

-- Memory and `strtok_last` after a call, and the token that it returned.
pub record Token : Type 0 where
  pub mem : Mem
  pub last : ℕ
  pub token : ℕ

-- The end of `strtok`, from the token on: `stop` is the delimiter behind it.
unfoldable pub end_token : Mem → ℕ → ℕ → Token
end_token m token stop =
    if stop == 0
    then record { mem = m; last = 0; token = token }
    else record { mem = write m stop 0; last = stop + 1; token = token }

-- What `strtok` does from the first byte that is no delimiter.
unfoldable pub take_token : ℕ → Mem → ℕ → ℕ → Option Token
take_token fuel m token delim =
    if m token == 0
    then some (record { mem = m; last = 0; token = 0 })
    else strpbrk fuel m token delim >>= λ stop. some (end_token m token stop)

unfoldable pub strtok : ℕ → Mem → ℕ → ℕ → ℕ → Option Token
strtok fuel m last str delim =
    let start = if str == 0 then last else str in
    if start == 0
    then some (record { mem = m; last = last; token = 0 })
    else strspn fuel m start delim >>= λ count. take_token fuel m (start + count) delim
