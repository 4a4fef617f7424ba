-- ===== src/Tests/Shell.antt =====
-- The shell on one line.
use meringue_os.Prelude.{
  ℕ, suc, ◌≡◌, ◌<◌, refl, false, true, Option, some, ◌>>=◌, List, [], ◌∷◌, ◌++◌, length, All, arith,
  codes,
}
use meringue_os.Memory.{Mem, within}
use meringue_os.Strings.{Token}
use meringue_os.Strings.Walks.{IsString}
use meringue_os.Frames.{Linker}
use meringue_os.Heap.{with_mem}
use meringue_os.Shell.Line.{max_cmd_len, read_line}
use meringue_os.Shell.Line.Edit.{Printable, typed, read_line-typed}
use meringue_os.Shell.Words.{max_args, split_line}
use meringue_os.Shell.Words.Split.{Strings, first_words, split_line-words}
use meringue_os.Shell.Loop.{Command, Layout, Shell, shell_round}
use meringue_os.Shell.Loop.Find.{name_of}
use meringue_os.Shell.Loop.Rounds.{IsLayout, First, outcome, words, shell_round-runs}
use meringue_os.Tests.Store.{texts_at, is_string_sound}

-- "pe", a letter that is taken back, "ek 0x10" and the end of the line; "x" is for the next.
abbrev input : List ℕ
input = codes "pew" ++ (127 ∷ (codes "ek 0x10" ++ (b'\r' ∷ codes "x")))

typed_input : typed [] input ≡ some (codes "peek 0x10", codes "x")
typed_input = refl

abbrev layout : Layout
layout = record { cmd_buffer = 1000; delim = 2000; name = address }
  where
    address : Command → ℕ
    address Command.help = 3000
    address Command.memdump = 3100
    address Command.peek = 3200
    address Command.poke = 3300
    address Command.alloc = 3400
    address Command.free = 3500
    address Command.pmm_info = 3600

abbrev memory : Mem
memory = texts_at (
    (2000, codes " ")
    ∷ (3000, codes "help")
    ∷ (3100, codes "memdump")
    ∷ (3200, codes "peek")
    ∷ (3300, codes "poke")
    ∷ (3400, codes "alloc")
    ∷ (3500, codes "free")
    ∷ (3600, codes "pmm_info")
    ∷ [])

read_line-typed_example :
    (m' : Mem) × (read_line 1000 input memory ≡ some (m', length (codes "peek 0x10"), codes "x"))
    × IsString m' 1000 (codes "peek 0x10")
    × All Printable (codes "peek 0x10")
    × (length (codes "peek 0x10") < max_cmd_len)
    × ((a : ℕ) → within 1000 max_cmd_len a ≡ false → m' a ≡ memory a)
read_line-typed_example =
    read_line-typed 1000 input memory (codes "peek 0x10") (codes "x") typed_input

-- The line in the buffer.
abbrev line_memory : Mem
line_memory = texts_at ((1000, codes "peek 0x10") ∷ (2000, codes " ") ∷ [])

split_line-words_example :
    (t : Token) × (argv : List ℕ) × (split_line 20 line_memory 0 1000 2000 ≡ some (t, argv))
    × Strings t.mem argv (first_words max_args (codes " ") (codes "peek 0x10"))
    × ((a : ℕ) → within 1000 (length (codes "peek 0x10")) a ≡ false → t.mem a ≡ line_memory a)
split_line-words_example =
    split_line-words 20 line_memory 0 1000 2000 (codes "peek 0x10") (codes " ") (omega arith)
      (is_string_sound line_memory 1000 (codes "peek 0x10") refl)
      (is_string_sound line_memory 2000 (codes " ") refl) (λ a w. ground arith) (omega arith)

words_of_line :
    first_words max_args (codes " ") (codes "peek 0x10") ≡ codes "peek" ∷ codes "0x10" ∷ []
unfolding first_words
words_of_line = refl

abbrev linker : Linker
linker = record {
  kernel_start = 0x4008_0000;
  kernel_end = 0x4009_0000;
  bitmap_start = 0x400a_0000;
  bitmap_end = 0x400a_8000;
}

abbrev shell : Shell
shell = record {
  heap = record {
    pmm = record { mem = memory; total_memory = 0; free_memory = 0; highest_usable_address = 0 };
    free_list_head = 0;
    heap_start = 0;
    heap_end = 0;
  };
  strtok_last = 0;
  input = input;
}

names : (c : Command) → IsString memory (layout.name c) (name_of c)
names Command.help = is_string_sound memory 3000 (codes "help") refl
names Command.memdump = is_string_sound memory 3100 (codes "memdump") refl
names Command.peek = is_string_sound memory 3200 (codes "peek") refl
names Command.poke = is_string_sound memory 3300 (codes "poke") refl
names Command.alloc = is_string_sound memory 3400 (codes "alloc") refl
names Command.free = is_string_sound memory 3500 (codes "free") refl
names Command.pmm_info = is_string_sound memory 3600 (codes "pmm_info") refl

names_off :
    (c : Command) (a : ℕ)
    → within (layout.name c) (suc (length (name_of c))) a ≡ true
    → within 1000 max_cmd_len a ≡ false
names_off Command.help a w = ground arith
names_off Command.memdump a w = ground arith
names_off Command.peek a w = ground arith
names_off Command.poke a w = ground arith
names_off Command.alloc a w = ground arith
names_off Command.free a w = ground arith
names_off Command.pmm_info a w = ground arith

layout-IsLayout : IsLayout layout memory
layout-IsLayout = record {
  buffer = omega arith;
  delim = is_string_sound memory 2000 (codes " ") refl;
  names = names;
  delim_off = λ a w. ground arith;
  names_off = names_off;
}

shell_round-runs_example :
    (m : Mem) × (last : ℕ) × (argv : List ℕ) × (found : Option Command) × (shell_round linker layout
        200 shell
      ≡ (outcome linker 200 found argv (with_mem shell.heap m) >>= λ done.
          some (record { heap = done.0; strtok_last = last; input = codes "x" }, done.1)))
    × Strings m argv (words (codes "peek 0x10"))
    × First (words (codes "peek 0x10")) found
    × ((a : ℕ) → within 1000 max_cmd_len a ≡ false → m a ≡ memory a)
shell_round-runs_example =
    shell_round-runs linker layout 200 shell (codes "peek 0x10") (codes "x") layout-IsLayout
      typed_input (λ e. cc) (omega arith)
