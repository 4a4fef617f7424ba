-- ===== src/Shell/Line.antt =====
-- The line reader of `shell_loop` (src/shell/shell.c). The characters that `kgetc_blocking` will return
-- are a list; `none` means that the list ends before the line does, where the code waits. What is
-- echoed is left out.
pub mod Edit
use meringue_os.Prelude.{
  ℕ, zero, suc, ◌+◌, ◌-◌, Bool, true, false, ◌&&◌, ◌||◌, Option, none, some, ◌>>=◌, ◌==◌, leb, ltb,
  if◌then◌else◌, List, [], ◌∷◌, sub64,
}
use meringue_os.Memory.{Mem, write, memset}

-- MAX_CMD_LEN
abbrev pub max_cmd_len : ℕ
max_cmd_len = 128

abbrev pub is_end : ℕ → Bool
is_end c = c == b'\r' || c == b'\n'

abbrev pub is_backspace : ℕ → Bool
is_backspace c = c == 8 || c == 127

abbrev pub is_printable : ℕ → Bool
is_printable c = leb 32 c && leb c 126

-- `cmd_buffer` and `i` after a character that does not end the line. Below 0, `i` would wrap.
unfoldable pub key : ℕ → ℕ → Mem → ℕ → Mem × ℕ
key cmd_buffer c m i =
    if is_backspace c
    then (if ltb 0 i then (m, sub64 i 1) else (m, i))
    else if is_printable c
    then (write m (cmd_buffer + i) c, i + 1)
    else (m, i)

-- The loop that reads a line: `cmd_buffer`, `i`, and the characters that are left.
unfoldable pub read_loop : ℕ → List ℕ → Mem → ℕ → Option (Mem × ℕ × List ℕ)
read_loop cmd_buffer [] m i = if ltb i (max_cmd_len - 1) then none else some (m, i, [])
read_loop cmd_buffer (c ∷ input) m i =
    let rest = read_loop cmd_buffer input (key cmd_buffer c m i).0 (key cmd_buffer c m i).1 in
    if ltb i (max_cmd_len - 1)
    then (if is_end c then some (m, i, input) else rest)
    else some (m, i, c ∷ input)

-- The line, with the NUL behind it.
unfoldable pub read_line : ℕ → List ℕ → Mem → Option (Mem × ℕ × List ℕ)
read_line cmd_buffer input m =
    read_loop cmd_buffer input (memset m cmd_buffer 0 max_cmd_len) 0 >>= λ r.
    some (write r.0 (cmd_buffer + r.1) 0, r.1, r.2)
