-- ===== src/Shell/Loop/Find.antt =====
-- The search of the table of commands in `shell_loop` (src/shell/shell.c).
use meringue_os.Prelude.{
  ℕ, ◌<◌, ◌≡◌, ◌≢◌, ◌↔◌, refl, true, Option, none, some, List, [], ◌∷◌, length, All, arith,
  Bool-cases, inl, inr,
}
use meringue_os.Prelude.Int.{ℤ, pos, negsuc}
use meringue_os.Memory.{Mem}
use meringue_os.Strings.Walks.{IsString, strcmp-zero}
use meringue_os.Shell.Loop.{Command, Layout, init_command_table, is_zero, find_command}

-- The names of the commands.
abbrev pub name_of : Command → List ℕ
name_of Command.help = b'h' ∷ b'e' ∷ b'l' ∷ b'p' ∷ []
name_of Command.memdump = b'm' ∷ b'e' ∷ b'm' ∷ b'd' ∷ b'u' ∷ b'm' ∷ b'p' ∷ []
name_of Command.peek = b'p' ∷ b'e' ∷ b'e' ∷ b'k' ∷ []
name_of Command.poke = b'p' ∷ b'o' ∷ b'k' ∷ b'e' ∷ []
name_of Command.alloc = b'a' ∷ b'l' ∷ b'l' ∷ b'o' ∷ b'c' ∷ []
name_of Command.free = b'f' ∷ b'r' ∷ b'e' ∷ b'e' ∷ []
name_of Command.pmm_info = b'p' ∷ b'm' ∷ b'm' ∷ b'_' ∷ b'i' ∷ b'n' ∷ b'f' ∷ b'o' ∷ []

-- `word` is the name of the command; or of none of them.
abbrev pub Names : List ℕ → Option Command → Type 0
Names w (some c) = w ≡ name_of c
Names w none = (c : Command) → w ≢ name_of c

is_zero_iff : (r : ℤ) → (is_zero r ≡ true) ↔ (r ≡ pos 0)
is_zero_iff (pos n) = (λ e. ground arith, λ e. ground arith)
is_zero_iff (negsuc n) = (λ e. absurd (cc), λ e. absurd (cc))

-- What the search finds among the entries of the table.
abbrev pub Among : List ℕ → List (ℕ × Command) → Option Command → Type 0
Among w table (some c) = w ≡ name_of c
Among w table none = All (λ entry. w ≢ name_of entry.1) table

pub find_command-Among :
    (fuel : ℕ) (m : Mem) (p : ℕ) (w : List ℕ) (table : List (ℕ × Command))
    → IsString m p w
    → length w < fuel
    → All (λ entry. IsString m entry.0 (name_of entry.1)) table
    → (found : Option Command) × (find_command fuel m p table ≡ some found) × Among w table found
unfolding find_command
find_command-Among fuel m p w [] s h names = (none, refl, tt)
find_command-Among fuel m p w ((name, command) ∷ table) s h (here, names) =
    let (r, runs, zero_iff) = strcmp-zero fuel m p name w (name_of command) s here h in
    let (found, rest, among) = find_command-Among fuel m p w table s h names in
    elim (Bool-cases (is_zero r)) [
      | inl z ↦ (some command, rw (runs, z) refl, zero_iff.0 ((is_zero_iff r).0 z))
      | inr nz ↦
          let ne : w ≢ name_of command = λ e. let z = (is_zero_iff r).1 (zero_iff.1 e) in cc in
          (found, rw (runs, nz) rest, widen found among ne)
    ]
  where
    widen :
        (found : Option Command)
        → Among w table found
        → w ≢ name_of command
        → Among w ((name, command) ∷ table) found
    widen none a ne = (ne, a)
    widen (some c) a ne = a

-- The command of that name is among those of the table.
pub Among-Names :
    (C : Layout) (w : List ℕ) (found : Option Command)
    → Among w (init_command_table C) found
    → Names w found
unfolding init_command_table
Among-Names C w (some c) a = a
Among-Names C w none (a, (b, (c, (d, (e, (f, (g, h))))))) = none_of
  where
    none_of : (k : Command) → w ≢ name_of k
    none_of Command.help = a
    none_of Command.memdump = b
    none_of Command.peek = c
    none_of Command.poke = d
    none_of Command.alloc = e
    none_of Command.free = f
    none_of Command.pmm_info = g
