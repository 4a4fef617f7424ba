-- ===== src/Shell.antt =====
-- The commands of src/shell/shell.c. A command gets the addresses of its arguments, with its own
-- name first, and returns the new state and its calls of `kprintf`, in order, each with its format and
-- its arguments. `none` means that a walk over a string ran out of fuel.
pub mod Range
pub mod Access
pub mod Dump
pub mod Line
pub mod Words
pub mod Loop
use meringue_os.Prelude.{
  ℕ, zero, suc, ◌+◌, ◌-◌, ◌*◌, ◌/◌, ◌%◌, Bool, true, false, ◌&&◌, ◌||◌, not, Option, none, some,
  ◌>>=◌, ◌==◌, leb, ltb, if◌then◌else◌, List, [], ◌∷◌, ◌++◌, String, word_mod, add64, sub64,
}
use meringue_os.Memory.{Mem}
use meringue_os.Memory.Access.{load, store}
use meringue_os.Frames.{
  Linker, Pmm, ram_base, pmm_get_total_memory, pmm_get_free_memory, pmm_get_highest_usable_address,
}
use meringue_os.Heap.{Kheap, mem, with_mem, kmalloc, kfree}
use meringue_os.Strings.{strlen}
use meringue_os.Numbers.{simple_strtoull}
use meringue_os.Stdio.Calls.{Print, print}

unfoldable pub is_address_valid : Pmm → ℕ → ℕ → Bool
is_address_valid s addr len =
    let highest_ram = pmm_get_highest_usable_address s in
    if ltb addr ram_base || leb highest_ram addr
    then false
    else if ltb 0 len && leb highest_ram (sub64 (add64 addr len) 1)
    then (if ltb (add64 addr len) addr then false else false)
    else true

-- `switch (size_char)`
unfoldable pub size_bytes : ℕ → Option ℕ
size_bytes c =
    if c == b'b'
    then some 1
    else if c == b'h'
    then some 2
    else if c == b'w'
    then some 4
    else if c == b'd'
    then some 8
    else none

-- The size that `peek` and `poke` are asked for, by the arguments behind the others: 8 bytes where
-- there is none, and a message where it is refused.
pub data Size : Type 0 where
  bytes : ℕ → Size
  refused : Print → Size

abbrev pub checked : ℕ → Option ℕ → Size
checked c none = refused (print "Error: Invalid size '%c'. Use b, h, w, or d.\n" (c ∷ []))
checked c (some n) = bytes n

unfoldable pub size_argument : ℕ → Mem → List ℕ → Option Size
size_argument fuel m [] = some (checked b'd' (size_bytes b'd'))
size_argument fuel m (arg ∷ args) = strlen fuel m arg >>= λ len.
    if not (len == 1)
    then some (refused (print "Error: Invalid size format '%s'\n" (arg ∷ [])))
    else some (checked (m arg) (size_bytes (m arg)))

-- The warning where the address is no multiple of the size; the access is made all the same.
unfoldable pub alignment : ℕ → ℕ → List Print
alignment addr size =
    if ltb 1 size && not (addr % size == 0)
    then print "Warning: Address 0x%llx is not aligned for size %zu.\n" (addr ∷ size ∷ []) ∷ []
    else []

abbrev pub out_of_ram : ℕ → ℕ → Print
out_of_ram addr size =
    print "Error: Address 0x%llx is not within valid RAM for size %zu.\n" (addr ∷ size ∷ [])

-- The format of `switch (size_bytes)` for the value.
abbrev pub value_format : ℕ → String
value_format size =
    if size == 1
    then "0x%02llx\n"
    else if size == 2
    then "0x%04llx\n"
    else if size == 4
    then "0x%08llx\n"
    else "0x%016llx\n"

-- `peek` and `poke` once their arguments are read; the size is 1, 2, 4 or 8.
unfoldable pub peek : ℕ → Size → Kheap → Kheap × List Print
peek addr (refused e) h = (h, e ∷ [])
peek addr (bytes size) h =
    if not (is_address_valid h.pmm addr size) then (h, out_of_ram addr size ∷ []) else (
      h,
      alignment addr size
          ++ print "Peek at 0x%llx (size %zu): " (addr ∷ size ∷ [])
            ∷ print (value_format size) (load (mem h) addr size ∷ [])
            ∷ [],
    )

unfoldable pub poke : ℕ → ℕ → Size → Kheap → Kheap × List Print
poke addr value (refused e) h = (h, e ∷ [])
poke addr value (bytes size) h =
    if not (is_address_valid h.pmm addr size) then (h, out_of_ram addr size ∷ []) else (
      with_mem h (store (mem h) addr size value),
      alignment addr size
          ++ print "Poke at 0x%llx (size %zu) with value 0x%llx\n" (addr ∷ size ∷ value ∷ []) ∷ [],
    )

-- `simple_strtoull(arg, &endptr, 0)`: `none` where `*endptr` is not the NUL.
unfoldable pub number_argument : ℕ → Mem → ℕ → Option (Option ℕ)
number_argument fuel m arg =
    simple_strtoull fuel m arg 0 >>= λ r. if not (m r.1 == 0) then some none else some (some r.0)

abbrev pub bad_address : ℕ → Print
bad_address arg = print "Error: Invalid address format '%s'\n" (arg ∷ [])

abbrev pub peek_usage : Print
peek_usage = print "Usage: peek <address> [size: b/h/w/d (default: d)]\n" []

abbrev pub poke_usage : Print
poke_usage = print "Usage: poke <address> <value> [size: b/h/w/d (default: d)]\n" []

unfoldable pub cmd_peek : ℕ → List ℕ → Kheap → Option (Kheap × List Print)
cmd_peek fuel [] h = some (h, peek_usage ∷ [])
cmd_peek fuel (name ∷ []) h = some (h, peek_usage ∷ [])
cmd_peek fuel (name ∷ arg ∷ args) h = number_argument fuel (mem h) arg >>= λ r. elim r [
  | none ↦ some (h, bad_address arg ∷ [])
  | some addr ↦ size_argument fuel (mem h) args >>= λ size. some (peek addr size h)
]

unfoldable pub cmd_poke : ℕ → List ℕ → Kheap → Option (Kheap × List Print)
cmd_poke fuel [] h = some (h, poke_usage ∷ [])
cmd_poke fuel (name ∷ []) h = some (h, poke_usage ∷ [])
cmd_poke fuel (name ∷ arg ∷ []) h = some (h, poke_usage ∷ [])
cmd_poke fuel (name ∷ arg ∷ arg2 ∷ args) h = number_argument fuel (mem h) arg >>= λ r. elim r [
  | none ↦ some (h, bad_address arg ∷ [])
  | some addr ↦ number_argument fuel (mem h) arg2 >>= λ r2. elim r2 [
    | none ↦ some (h, print "Error: Invalid value format '%s'\n" (arg2 ∷ []) ∷ [])
    | some value ↦ size_argument fuel (mem h) args >>= λ size. some (poke addr value size h)
  ]
]

abbrev bad_alloc : ℕ → Print
bad_alloc arg = print "Error: Invalid size '%s'\n" (arg ∷ [])

unfoldable pub cmd_alloc : Linker → ℕ → List ℕ → Kheap → Option (Kheap × List Print)
cmd_alloc L fuel [] h = some (h, print "Usage: alloc <size>\n" [] ∷ [])
cmd_alloc L fuel (name ∷ []) h = some (h, print "Usage: alloc <size>\n" [] ∷ [])
cmd_alloc L fuel (name ∷ arg ∷ args) h = number_argument fuel (mem h) arg >>= λ r. elim r [
  | none ↦ some (h, bad_alloc arg ∷ [])
  | some size ↦
      if size == 0
      then some (h, bad_alloc arg ∷ [])
      else kmalloc L fuel size h >>= λ r2. some (
        r2.0,
        (if not (r2.1 == 0)
              then print "Allocated %zu bytes at 0x%p\n" (size ∷ r2.1 ∷ [])
              else print "Allocation failed!\n" [])
            ∷ [],
      )
]

unfoldable pub cmd_free : ℕ → List ℕ → Kheap → Option (Kheap × List Print)
cmd_free fuel [] h = some (h, print "Usage: free <address>\n" [] ∷ [])
cmd_free fuel (name ∷ []) h = some (h, print "Usage: free <address>\n" [] ∷ [])
cmd_free fuel (name ∷ arg ∷ args) h = number_argument fuel (mem h) arg >>= λ r. elim r [
  | none ↦ some (h, bad_address arg ∷ [])
  | some addr ↦ some (kfree addr h, print "Freeing memory at 0x%p\n" (addr ∷ []) ∷ [])
]

unfoldable pub cmd_pmm_info : Kheap → Kheap × List Print
cmd_pmm_info h = (
  h,
  print "Physical Memory Manager Info:\n" []
      ∷ print "  Total Usable Memory: %llu KB\n" (pmm_get_total_memory h.pmm / 1024 ∷ [])
      ∷ print "  Free Memory:         %llu KB\n" (pmm_get_free_memory h.pmm / 1024 ∷ [])
      ∷ print "  Highest Usable Addr: 0x%llx\n" (pmm_get_highest_usable_address h.pmm ∷ [])
      ∷ [],
)

unfoldable pub cmd_help : Kheap → Kheap × List Print
cmd_help h = (
  h,
  print "Available commands:\n" []
      ∷ print "  help          - Display this help message\n" []
      ∷ print "  memdump <addr> [len] - Dump memory contents (default len=256)\n" []
      ∷ print "  peek <addr> [sz] - Read value from memory (sz=b/h/w/d, default=d)\n" []
      ∷ print "  poke <addr> <val> [sz] - Write value to memory (sz=b/h/w/d, default=d)\n" []
      ∷ print "  alloc <size>  - Allocate memory of given size\n" []
      ∷ print "  free <addr>   - Free previously allocated memory\n" []
      ∷ print "  pmm_info      - Display Physical Memory Manager info\n" []
      ∷ [],
)
