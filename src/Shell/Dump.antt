-- ===== src/Shell/Dump.antt =====
-- `memdump` of src/shell/shell.c.
pub mod Columns
pub mod Rows
use meringue_os.Prelude.{
  ℕ, zero, suc, ◌+◌, ◌-◌, ◌*◌, ◌/◌, ◌%◌, Bool, true, false, ◌&&◌, ◌||◌, not, Option, none, some,
  ◌>>=◌, ◌==◌, leb, ltb, if◌then◌else◌, List, [], ◌∷◌, ◌++◌, String, word_mod, add64, sub64,
}
use meringue_os.Memory.{Mem}
use meringue_os.Memory.Access.{load, store}
use meringue_os.Frames.{
  Linker, Pmm, ram_base, pmm_get_total_memory, pmm_get_free_memory, pmm_get_highest_usable_address,
}
use meringue_os.Heap.{Kheap, mem, with_mem, kmalloc, kfree}
use meringue_os.Strings.{strlen}
use meringue_os.Numbers.{simple_strtoull}
use meringue_os.Stdio.Calls.{Print, print}
use meringue_os.Shell.{is_address_valid, number_argument, bad_address}

-- The loop over the bytes of a row, and the one over its characters: `j` goes up to 16, and `rounds`
-- are left.
unfoldable pub hex_loop : ℕ → Mem → ℕ → ℕ → ℕ → ℕ → List Print
hex_loop zero m addr length i j = []
hex_loop (suc rounds) m addr length i j =
    (if ltb (add64 i j) length
      then print "%02x " (m (add64 addr (add64 i j)) ∷ [])
      else print "   " [])
    ∷ ((if j == 7 then print " " [] ∷ [] else []) ++ hex_loop rounds m addr length i (j + 1))

abbrev pub printable : ℕ → ℕ
printable c = if leb 32 c && leb c 126 then c else b'.'

unfoldable pub ascii_loop : ℕ → Mem → ℕ → ℕ → ℕ → ℕ → List Print
ascii_loop zero m addr length i j = []
ascii_loop (suc rounds) m addr length i j =
    (if ltb (add64 i j) length
      then print "%c" (printable (m (add64 addr (add64 i j))) ∷ [])
      else print " " [])
    ∷ ascii_loop rounds m addr length i (j + 1)

unfoldable pub dump_row : Mem → ℕ → ℕ → ℕ → List Print
dump_row m addr length i =
    print "%016llx: " (add64 addr i ∷ [])
    ∷ (hex_loop 16 m addr length i 0
        ++ (print " |" [] ∷ (ascii_loop 16 m addr length i 0 ++ (print "|\n" [] ∷ []))))

-- The loop over the rows: `i` goes up by 16 as long as it is below `length`. `rounds` is fuel: the
-- `length / 16 + 1` that `dump` gives is enough unless `i` wraps around, for a `length` of more than
-- 2 ^ 64 - 16, where the code would not leave the loop.
unfoldable pub dump_rows : ℕ → Mem → ℕ → ℕ → ℕ → List Print
dump_rows zero m addr length i = []
dump_rows (suc rounds) m addr length i =
    let rest = dump_rows rounds m addr length (add64 i 16) in
    if ltb i length then dump_row m addr length i ++ rest else []

unfoldable pub dump : ℕ → ℕ → Kheap → Kheap × List Print
dump addr length h =
    let last = sub64 (add64 addr length) 1 in
    if length == 0
    then (h, [])
    else if not (is_address_valid h.pmm addr length)
    then (
      h,
      print "Error: Address range 0x%llx - 0x%llx is not within valid RAM.\n" (addr ∷ last ∷ [])
          ∷ [],
    )
    else (
      h,
      print "Memory dump from 0x%llx (length %zu):\n" (addr ∷ length ∷ [])
          ∷ dump_rows (length / 16 + 1) (mem h) addr length 0,
    )

abbrev pub memdump_usage : Print
memdump_usage = print "Usage: memdump <address> [length]\n" []

unfoldable pub cmd_memdump : ℕ → List ℕ → Kheap → Option (Kheap × List Print)
cmd_memdump fuel [] h = some (h, memdump_usage ∷ [])
cmd_memdump fuel (name ∷ []) h = some (h, memdump_usage ∷ [])
cmd_memdump fuel (name ∷ arg ∷ []) h = number_argument fuel (mem h) arg >>= λ r. elim r [
  | none ↦ some (h, bad_address arg ∷ [])
  | some addr ↦ some (dump addr 256 h)
]
cmd_memdump fuel (name ∷ arg ∷ arg2 ∷ args) h = number_argument fuel (mem h) arg >>= λ r. elim r [
  | none ↦ some (h, bad_address arg ∷ [])
  | some addr ↦ number_argument fuel (mem h) arg2 >>= λ r2. elim r2 [
    | none ↦ some (h, print "Error: Invalid length format '%s'\n" (arg2 ∷ []) ∷ [])
    | some length ↦ some (dump addr length h)
  ]
]
