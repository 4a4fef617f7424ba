-- ===== src/Shell/Words.antt =====
-- How `shell_loop` of src/shell/shell.c cuts a line into words, by `strtok`.
pub mod Split
use meringue_os.Prelude.{
  ℕ, zero, suc, ◌+◌, ◌-◌, ◌≤◌, ◌<◌, ◌≡◌, ◌≢◌, ◌⊎◌, refl, ap, sym, ◌∙◌, Bool, true, false, Option,
  none, some, ◌>>=◌, ◌==◌, leb, ltb, if◌then◌else◌, List, [], ◌∷◌, length, arith, Bool-cases,
  Option-cases, inl, inr,
}
use meringue_os.Memory.{Mem, within}
use meringue_os.Strings.{Token, strtok}

-- MAX_ARGS
abbrev pub max_args : ℕ
max_args = 10

-- while (token != NULL && argc < MAX_ARGS), where `slots` places are left in `argv`: what `strtok` left
-- at last, and the words.
unfoldable pub token_loop : ℕ → ℕ → ℕ → Token → Option (Token × List ℕ)
token_loop fuel delim zero t = some (t, [])
token_loop fuel delim (suc slots) t =
    let rest = strtok fuel t.mem t.last 0 delim >>= λ t'.
    token_loop fuel delim slots t' >>= λ r. some (r.0, t.token ∷ r.1) in
    if t.token == 0 then some (t, []) else rest

unfoldable pub split_line : ℕ → Mem → ℕ → ℕ → ℕ → Option (Token × List ℕ)
split_line fuel m strtok_last cmd_buffer delim =
    strtok fuel m strtok_last cmd_buffer delim >>= λ t. token_loop fuel delim max_args t
