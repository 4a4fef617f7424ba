-- ===== src/Shell/Loop.antt =====
-- `init_command_table` and the rounds of `shell_loop` in src/shell/shell.c. The buffer is on the stack,
-- and the names and " " are static data; their addresses are parameters. The banner, the prompt, what
-- is echoed and the debug output are left out.
pub mod Find
pub mod Rounds
use meringue_os.Prelude.{
  ℕ, zero, suc, ◌+◌, Bool, true, false, Option, none, some, ◌>>=◌, ◌==◌, if◌then◌else◌, List, [],
  ◌∷◌, ◌++◌,
}
use meringue_os.Prelude.Int.{ℤ, pos, negsuc}
use meringue_os.Memory.{Mem}
use meringue_os.Frames.{Linker}
use meringue_os.Heap.{Kheap, mem, with_mem}
use meringue_os.Strings.{Token, strcmp}
use meringue_os.Stdio.Calls.{Print, print}
use meringue_os.Shell.{cmd_help, cmd_peek, cmd_poke, cmd_alloc, cmd_free, cmd_pmm_info}
use meringue_os.Shell.Dump.{cmd_memdump}
use meringue_os.Shell.Line.{read_line}
use meringue_os.Shell.Words.{split_line}

pub data Command : Type 0 where
  help memdump peek poke alloc free pmm_info : Command

-- The addresses of `cmd_buffer`, of " " and of the names.
pub record Layout : Type 0 where
  pub cmd_buffer : ℕ
  pub delim : ℕ
  pub name : Command → ℕ

-- `commands`, without the sentinel.
unfoldable pub init_command_table : Layout → List (ℕ × Command)
init_command_table C =
    (C.name help, help)
    ∷ (C.name memdump, memdump)
    ∷ (C.name peek, peek)
    ∷ (C.name poke, poke)
    ∷ (C.name alloc, alloc)
    ∷ (C.name free, free)
    ∷ (C.name pmm_info, pmm_info)
    ∷ []

abbrev pub is_zero : ℤ → Bool
is_zero (pos n) = n == 0
is_zero (negsuc n) = false

-- The search of the table: the command, if there is one of that name.
unfoldable pub find_command : ℕ → Mem → ℕ → List (ℕ × Command) → Option (Option Command)
find_command fuel m word [] = some none
find_command fuel m word ((name, command) ∷ commands) =
    let rest = find_command fuel m word commands in
    strcmp fuel m word name >>= λ r. if is_zero r then some (some command) else rest

unfoldable pub run_command : Linker → ℕ → Command → List ℕ → Kheap → Option (Kheap × List Print)
run_command L fuel help argv h = some (cmd_help h)
run_command L fuel memdump argv h = cmd_memdump fuel argv h
run_command L fuel peek argv h = cmd_peek fuel argv h
run_command L fuel poke argv h = cmd_poke fuel argv h
run_command L fuel alloc argv h = cmd_alloc L fuel argv h
run_command L fuel free argv h = cmd_free fuel argv h
run_command L fuel pmm_info argv h = some (cmd_pmm_info h)

-- The state between two rounds: the heap, `strtok_last`, and the characters that are still to come.
pub record Shell : Type 0 where
  pub heap : Kheap
  pub strtok_last : ℕ
  pub input : List ℕ

-- A round once `argv` is there.
unfoldable pub execute : Linker → Layout → ℕ → List ℕ → Kheap → Option (Kheap × List Print)
execute L C fuel [] h = some (h, [])
execute L C fuel (word ∷ args) h =
    find_command fuel (mem h) word (init_command_table C) >>= λ found. elim found [
      | none ↦ some (h, print "Unknown command: %s\n" (word ∷ []) ∷ [])
      | some command ↦ run_command L fuel command (word ∷ args) h
    ]

-- A round: the new state and what is printed.
unfoldable pub shell_round : Linker → Layout → ℕ → Shell → Option (Shell × List Print)
shell_round L C fuel s = read_line C.cmd_buffer s.input (mem s.heap) >>= λ r.
    if r.1 == 0
    then some (record s { heap = with_mem s.heap r.0; input = r.2 }, [])
    else (split_line fuel r.0 s.strtok_last C.cmd_buffer C.delim >>= λ words.
        execute L C fuel words.1 (with_mem s.heap (words.0.mem)) >>= λ done.
        some (record { heap = done.0; strtok_last = words.0.last; input = r.2 }, done.1))

-- `n` rounds.
unfoldable pub shell_loop : Linker → Layout → ℕ → ℕ → Shell → Option (Shell × List Print)
shell_loop L C fuel zero s = some (s, [])
shell_loop L C fuel (suc n) s =
    shell_round L C fuel s >>= λ r. shell_loop L C fuel n r.0 >>= λ r2. some (r2.0, r.1 ++ r2.1)
