-- ===== src/Shell/Loop/Rounds.antt =====
-- A round of `shell_loop` of src/shell/shell.c against what is typed.
use meringue_os.Prelude.{
  ℕ, suc, ◌<◌, ◌≡◌, ◌≢◌, refl, ◌∙◌, true, false, Option, none, some, ◌>>=◌, ◌==◌, List, [], ◌∷◌,
  length, All, arith,
}
use meringue_os.Memory.{Mem, within}
use meringue_os.Frames.{Linker}
use meringue_os.Heap.{Kheap, mem, with_mem}
use meringue_os.Strings.Walks.{IsString}
use meringue_os.Strings.Tokens.{IsString-eq}
use meringue_os.Stdio.Calls.{Print, print}
use meringue_os.Shell.Line.{max_cmd_len}
use meringue_os.Shell.Line.Edit.{typed, read_line-typed}
use meringue_os.Shell.Words.{max_args}
use meringue_os.Shell.Words.Split.{first_words, first_words-le, Strings, split_line-words}
use meringue_os.Shell.Loop.{
  Command, Layout, init_command_table, run_command, Shell, execute, shell_round,
}
use meringue_os.Shell.Loop.Find.{name_of, Names, find_command-Among, Among-Names}

-- The buffer is no NULL, and " " and the names are strings outside it.
pub record IsLayout (C : Layout) (m : Mem) : Type 0 where
  pub buffer : C.cmd_buffer ≢ 0
  pub delim : IsString m C.delim (b' ' ∷ [])
  pub names : (c : Command) → IsString m (C.name c) (name_of c)
  pub delim_off : (a : ℕ) → within C.delim 2 a ≡ true → within C.cmd_buffer max_cmd_len a ≡ false
  pub names_off :
      (c : Command) (a : ℕ)
      → within (C.name c) (suc (length (name_of c))) a ≡ true
      → within C.cmd_buffer max_cmd_len a ≡ false

-- It stays where only the buffer changes.
IsLayout-kept :
    (C : Layout) (m k : Mem)
    → ((a : ℕ) → within C.cmd_buffer max_cmd_len a ≡ false → k a ≡ m a)
    → IsLayout C m
    → IsLayout C k
IsLayout-kept C m k kept l = record {
  buffer = l.buffer;
  delim = IsString-eq m k C.delim (b' ' ∷ []) (λ a w. kept a (l.delim_off a w)) l.delim;
  names =
      λ c. IsString-eq m k (C.name c) (name_of c) (λ a w. kept a (l.names_off c a w)) (l.names c);
  delim_off = l.delim_off;
  names_off = l.names_off;
}

-- What a line does whose first word is at `word`.
abbrev pub outcome : Linker → ℕ → Option Command → List ℕ → Kheap → Option (Kheap × List Print)
outcome L fuel found [] h = some (h, [])
outcome L fuel none (word ∷ args) h = some (h, print "Unknown command: %s\n" (word ∷ []) ∷ [])
outcome L fuel (some c) (word ∷ args) h = run_command L fuel c (word ∷ args) h

execute_found :
    (L : Linker) (C : Layout) (fuel p : ℕ) (ps w : List ℕ) (h : Kheap)
    → IsLayout C (mem h)
    → IsString (mem h) p w
    → length w < fuel
    → (found : Option Command) × Names w found
      × (execute L C fuel (p ∷ ps) h ≡ outcome L fuel found (p ∷ ps) h)
unfolding execute
execute_found L C fuel p ps w h l s enough =
    let entries : All (λ entry. IsString (mem h) entry.0 (name_of entry.1)) (init_command_table C) =
      unfold init_command_table in
      (
        l.names Command.help,
        (
          l.names Command.memdump,
          (
            l.names Command.peek,
            (
              l.names Command.poke,
              (l.names Command.alloc, (l.names Command.free, (l.names Command.pmm_info, tt))),
            ),
          ),
        ),
      ) in
    let (found, runs, among) =
      find_command-Among fuel (mem h) p w (init_command_table C) s enough entries in
    (found, Among-Names C w found among, rw runs (shape found))
  where
    shape :
        (found : Option Command)
        → (elim found as (λ _. Option (Kheap × List Print)) [
          | none ↦ some (h, print "Unknown command: %s\n" (p ∷ []) ∷ [])
          | some command ↦ run_command L fuel command (p ∷ ps) h
        ])
          ≡ outcome L fuel found (p ∷ ps) h
    shape none = refl
    shape (some c) = refl

-- The words of a line, by the spaces between them.
abbrev pub words : List ℕ → List (List ℕ)
words line = first_words max_args (b' ' ∷ []) line

-- Names of the first word, if there is one.
abbrev pub First : List (List ℕ) → Option Command → Type 0
First [] found = Unit
First (w ∷ ws) found = Names w found

dispatched :
    (L : Linker) (C : Layout) (fuel : ℕ) (argv : List ℕ) (ws : List (List ℕ)) (h : Kheap)
    → IsLayout C (mem h)
    → Strings (mem h) argv ws
    → ((w : List ℕ) (rest : List (List ℕ)) → ws ≡ w ∷ rest → length w < fuel)
    → (found : Option Command) × First ws found
      × (execute L C fuel argv h ≡ outcome L fuel found argv h)
dispatched L C fuel [] [] h l s short = (none, tt, unfold execute in refl)
dispatched L C fuel (p ∷ ps) (w ∷ ws) h l s short =
    execute_found L C fuel p ps w h l s.0 (short w ws refl)
dispatched L C fuel [] (w ∷ ws) h l s short = absurd s
dispatched L C fuel (p ∷ ps) [] h l s short = absurd s

length-ne-zero : (xs : List ℕ) → xs ≢ [] → (length xs == 0) ≡ false
length-ne-zero [] ne = absurd (ne refl)
length-ne-zero (x ∷ xs) ne = ground arith

-- A round in which a line is typed that is not empty, with fuel above 128: the line is cut at spaces
-- into the first ten words, of which `argv` has the addresses; if the first is the name of a command, that
-- command runs on `argv`; if it is the name of none, the message that it is unknown is printed; a line of spaces does nothing. The
-- next round has the rest of the input. Before the command runs, memory changes in the buffer only.
pub shell_round-runs :
    (L : Linker) (C : Layout) (fuel : ℕ) (s : Shell) (line rest : List ℕ)
    → IsLayout C (mem s.heap)
    → typed [] s.input ≡ some (line, rest)
    → line ≢ []
    → max_cmd_len < fuel
    → (m : Mem) × (last : ℕ) × (argv : List ℕ) × (found : Option Command) × (shell_round L C fuel s
        ≡ (outcome L fuel found argv (with_mem s.heap m) >>= λ done.
            some (record { heap = done.0; strtok_last = last; input = rest }, done.1)))
      × Strings m argv (words line)
      × First (words line) found
      × ((a : ℕ) → within C.cmd_buffer max_cmd_len a ≡ false → m a ≡ mem s.heap a)
unfolding shell_round
shell_round-runs L C fuel s line rest l e ne enough =
    let (k, reads, typed_line, chars, short, kept) =
      read_line-typed C.cmd_buffer s.input (mem s.heap) line rest e in
    let some_chars : (length line == 0) ≡ false = length-ne-zero line ne in
    let l1 = IsLayout-kept C (mem s.heap) k kept l in
    let (t, argv, cuts, strings, kept') =
      split_line-words fuel k s.strtok_last C.cmd_buffer C.delim line (b' ' ∷ []) l1.buffer
        typed_line l1.delim (λ a w. ground (arith, l1.delim_off a w)) (omega arith) in
    let narrow = λ (a : ℕ) (o : within C.cmd_buffer max_cmd_len a ≡ false).
      let p : within C.cmd_buffer (length line) a ≡ false = ground arith in kept' a p in
    let l2 = IsLayout-kept C k t.mem narrow l1 in
    let (found, first, runs) =
      dispatched L C fuel argv (words line) (with_mem s.heap t.mem) l2 strings
        (λ w ws f. omega (arith, first_words-le max_args (b' ' ∷ []) line w ws f)) in
    (
      t.mem,
      t.last,
      argv,
      found,
      rw (reads, some_chars, cuts, runs) refl,
      strings,
      first,
      λ a o. narrow a o ∙ kept a o,
    )
