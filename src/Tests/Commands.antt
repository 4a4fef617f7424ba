-- ===== src/Tests/Commands.antt =====
-- `peek`, `poke` and `memdump` on memory that holds their formats, and a few bytes in RAM.
use meringue_os.Prelude.{
  ℕ, ◌%◌, ◌^◌, ◌<◌, ◌≡◌, ◌↔◌, inl, refl, true, some, List, [], ◌∷◌, ◌++◌, arith, String, codes,
}
use meringue_os.Memory.{Mem, IsBytes, write}
use meringue_os.Memory.Access.{store}
use meringue_os.Frames.{Pmm, pmm_get_highest_usable_address}
use meringue_os.Heap.{Kheap, mem}
use meringue_os.Strings.{strlen, strlen_loop}
use meringue_os.Stdio.Calls.{print, all_sent, Placed}
use meringue_os.Shell.{
  bytes, refused, size_argument, is_address_valid, alignment, value_format, peek, poke,
}
use meringue_os.Shell.Dump.{dump}
use meringue_os.Shell.Dump.Columns.{dump_formats}
use meringue_os.Shell.Dump.Rows.{dump_text, dump-dump_text}
use meringue_os.Shell.Range.{InRam, is_address_valid-InRam, is_address_valid_wrap}
use meringue_os.Shell.Access.{peek_formats, peek_text, peek-poke, poke_kept}
use meringue_os.Tests.Store.{texts_at, texts_at-IsBytes, place, placed, are_placed_sound}

abbrev texts : List (ℕ × List ℕ)
texts =
    (0x4000_0100, 1 ∷ codes "dump of RAM")
    ∷ (500, codes "word")
    ∷ (placed dump_formats ++ placed (peek_formats 2))

abbrev memory : Mem
memory = texts_at texts

memory-IsBytes : IsBytes memory
memory-IsBytes = texts_at-IsBytes texts (omega arith)

-- 64 KiB of usable RAM.
abbrev pmm : Pmm
pmm = record {
  mem = memory;
  total_memory = 0x1_0000;
  free_memory = 0;
  highest_usable_address = 0x4001_0000;
}

abbrev heap : Kheap
heap = record { pmm = pmm; free_list_head = 0; heap_start = 0; heap_end = 0 }

is_address_valid-InRam_example :
    (is_address_valid pmm 0x4000_0100 8 ≡ true) ↔ InRam pmm 0x4000_0100 8
is_address_valid-InRam_example =
    is_address_valid-InRam pmm 0x4000_0100 8 (omega arith) (omega arith)

is_address_valid_wrap_example : is_address_valid pmm 0x4000_0100 0xffff_ffff_c000_0000 ≡ true
is_address_valid_wrap_example =
    is_address_valid_wrap pmm 0x4000_0100 0xffff_ffff_c000_0000 (omega arith) (omega arith)
      (omega arith) (omega arith) (omega arith) (omega arith)

valid : (n : ℕ) → n < 0x1000 → is_address_valid pmm 0x4000_0100 n ≡ true
valid n h = (is_address_valid-InRam pmm 0x4000_0100 n (omega arith) (omega arith)).1 (omega arith)

abbrev formats : List String
formats = peek_formats 2

poked_formats : Placed (mem (poke 0x4000_0100 0x12345 (bytes 2) heap).0) place formats
unfolding poke store write is_address_valid pmm_get_highest_usable_address
poked_formats = are_placed_sound (mem (poke 0x4000_0100 0x12345 (bytes 2) heap).0) formats refl

peek-poke_example :
    (peek 0x4000_0100 (bytes 2) (poke 0x4000_0100 0x12345 (bytes 2) heap).0 ≡ (
      (poke 0x4000_0100 0x12345 (bytes 2) heap).0,
      alignment 0x4000_0100 2
          ++ print "Peek at 0x%llx (size %zu): " (0x4000_0100 ∷ 2 ∷ [])
            ∷ print (value_format 2) (0x12345 % 256 ^ 2 ∷ [])
            ∷ [],
    ))
    × (all_sent 70
          (mem (poke 0x4000_0100 0x12345 (bytes 2) heap).0)
          place
          (peek 0x4000_0100 (bytes 2) (poke 0x4000_0100 0x12345 (bytes 2) heap).0).1
        ≡ some (peek_text 0x4000_0100 2))
peek-poke_example =
    peek-poke 70 place heap 0x4000_0100 0x12345 2 (valid 2 (omega arith)) poked_formats
      (omega arith)

poke_kept_example :
    mem (poke 0x4000_0100 0x12345 (bytes 2) heap).0 0x4000_0102 ≡ mem heap 0x4000_0102
poke_kept_example =
    poke_kept heap 0x4000_0100 0x12345 2 0x4000_0102 (omega arith) (omega arith) (inl refl)

dump-dump_text_example :
    ((dump 0x4000_0100 20 heap).0 ≡ heap)
    × (all_sent 70 memory place (dump 0x4000_0100 20 heap).1
        ≡ some (dump_text memory 0x4000_0100 20))
dump-dump_text_example =
    dump-dump_text 70 place heap 0x4000_0100 20 memory-IsBytes
      (are_placed_sound memory dump_formats refl) (omega arith) (omega arith) (omega arith)
      (valid 20 (omega arith))

-- A reserved size letter is refused, and nothing is written.
refuses :
    size_argument 20 memory (500 ∷ [])
    ≡ some (refused (print "Error: Invalid size format '%s'\n" (500 ∷ [])))
unfolding size_argument strlen strlen_loop
refuses = refl
