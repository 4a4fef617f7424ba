-- ===== src/Shell/Dump/Rows.antt =====
-- What `memdump` of src/shell/shell.c sends.
use meringue_os.Prelude.{
  ℕ, zero, suc, ◌+◌, ◌-◌, ◌*◌, ◌/◌, ◌≤◌, ◌<◌, ◌≡◌, ◌≢◌, refl, ◌∙◌, true, false, some, arith, ltb,
  ◌==◌, List, [], ◌∷◌, ◌++◌, length, drop, String, codes, word_mod, add64, Bool-cases, inl, inr,
}
use meringue_os.Memory.{Mem, IsBytes}
use meringue_os.Heap.{Kheap, mem}
use meringue_os.Stdio.Calls.{
  print, all_sent, Placed, raw_sent, hex_text, hex_sent, all_sent-append, cons_sent,
}
use meringue_os.Shell.{is_address_valid}
use meringue_os.Shell.Dump.{hex_loop, ascii_loop, dump_row, dump_rows, dump}
use meringue_os.Shell.Dump.Columns.{
  read_bytes, row_text, rows_text, dump_formats, hex_loop-hex_columns, ascii_loop-characters,
}

module _ (fuel : ℕ) (m : Mem) (at : String → ℕ) (bytes : IsBytes m)
    (placed : Placed m at dump_formats) (enough : 60 < fuel) where
  dump_row-row_text :
      (addr length i : ℕ)
      → addr + length ≤ word_mod
      → i + 16 ≤ word_mod
      → all_sent fuel m at (dump_row m addr length i)
        ≡ some (row_text (read_bytes m (addr + i) (length - i)))
  unfolding dump_row
  dump_row-row_text addr length i fits small =
      let e : i + 0 ≡ i = omega arith in
      let start =
        raw_sent fuel m at "%016llx: " (add64 addr i ∷ []) placed.1.0 refl refl refl
          (omega arith, omega arith) in
      let bar =
        raw_sent fuel m at " |" [] placed.1.1.1.1.1.0 refl refl refl (omega arith, omega arith) in
      let end =
        raw_sent fuel m at "|\n" [] placed.1.1.1.1.1.1.1.0 refl refl refl
          (omega arith, omega arith) in
      let final : all_sent fuel m at (print "|\n" [] ∷ []) ≡ some (codes "|\n") =
        unfold all_sent in rw end refl in
      let left =
        hex_loop-hex_columns fuel m at bytes placed enough 16 addr length i 0 fits (omega arith) in
      let right =
        ascii_loop-characters fuel m at bytes placed enough 16 addr length i 0 fits (omega arith) in
      cons_sent fuel m at _ _ _ _ start (
        all_sent-append fuel m at (hex_loop 16 m addr length i 0) _ _ _ (rw e at left) (
          cons_sent fuel m at _ _ _ _ bar (
            all_sent-append fuel m at (ascii_loop 16 m addr length i 0) _ _ _ (rw e at right)
              final)))

  drop-read_bytes : (k a n : ℕ) → drop k (read_bytes m a n) ≡ read_bytes m (a + k) (n - k)
  drop-read_bytes zero a n =
      let e : a + 0 ≡ a = omega arith in let f : n - 0 ≡ n = omega arith in rw (e, f) refl
  drop-read_bytes (suc k) a zero = let e : 0 - suc k ≡ 0 = omega arith in rw e refl
  drop-read_bytes (suc k) a (suc n) =
      let e : a + suc k ≡ a + 1 + k = omega arith in
      let f : suc n - suc k ≡ n - k = omega arith in rw (e, f) (drop-read_bytes k (a + 1) n)

  rows_text-suc :
      (n : ℕ) (bs : List ℕ)
      → bs ≢ []
      → rows_text (suc n) bs ≡ row_text bs ++ rows_text n (drop 16 bs)
  rows_text-suc n [] ne = absurd (ne refl)
  rows_text-suc n (b ∷ bs) ne = refl

  dump_rows-rows_text :
      (rounds addr length i : ℕ)
      → addr + length ≤ word_mod
      → length + 32 ≤ word_mod
      → length ≤ i + 16 * rounds
      → i ≤ length + 16
      → all_sent fuel m at (dump_rows rounds m addr length i)
        ≡ some (rows_text rounds (read_bytes m (addr + i) (length - i)))
  unfolding dump_rows
  dump_rows-rows_text zero addr length i fits small enough_rows near = unfold all_sent in refl
  dump_rows-rows_text (suc rounds) addr length i fits small enough_rows near =
      elim (Bool-cases (ltb i length)) [
        | inr n ↦ let e : length - i ≡ 0 = ground arith in rw (n, e) (unfold all_sent in refl)
        | inl y ↦
            let next : add64 i 16 ≡ i + 16 = ground arith in
            let along : addr + i + 16 ≡ addr + (i + 16) = omega arith in
            let less : length - i - 16 ≡ length - (i + 16) = omega arith in
            let bs = read_bytes m (addr + i) (length - i) in
            let more : length - i ≡ suc (length - (i + 1)) = ground arith in
            let ne : bs ≢ [] = λ e. let f = rw more at e in cc in
            let others =
              dump_rows-rows_text rounds addr length (i + 16) fits small (omega arith)
                (ground arith) in
            let rest : drop 16 bs ≡ read_bytes m (addr + (i + 16)) (length - (i + 16)) =
              drop-read_bytes 16 (addr + i) (length - i) ∙ (rw (along, less) refl) in
            let here = dump_row-row_text addr length i fits (ground arith) in
            rw (rows_text-suc rounds bs ne, rest, y, next)
              (all_sent-append fuel m at (dump_row m addr length i) _ _ _ here others)
      ]

-- What a dump sends.
abbrev pub dump_text : Mem → ℕ → ℕ → List ℕ
dump_text m addr length =
    hex_text "Memory dump from 0x" addr " (length %zu):\n"
    ++ rows_text (length / 16 + 1) (read_bytes m addr length)

-- In memory that holds bytes and the formats, with fuel above 60, a dump of a valid range that is not
-- empty and does not wrap around changes nothing and sends the address, and then a row
-- for each 16 bytes in order: of each byte its character, or a full stop if it is not printable. The
-- address of a row, the value of a byte and the length are not shown: their formats are sent as they
-- stand.
pub dump-dump_text :
    (fuel : ℕ) (at : String → ℕ) (h : Kheap) (addr length : ℕ)
    → IsBytes (mem h)
    → Placed (mem h) at dump_formats
    → 60 < fuel
    → length ≢ 0
    → addr + length ≤ word_mod
    → is_address_valid h.pmm addr length ≡ true
    → ((dump addr length h).0 ≡ h)
      × (all_sent fuel (mem h) at (dump addr length h).1 ≡ some (dump_text (mem h) addr length))
unfolding dump
dump-dump_text fuel at h addr length bytes placed enough ne fits ok =
    let above = low ok in
    let z : (length == 0) ≡ false = ground arith in
    let e : addr + 0 ≡ addr = omega arith in
    let f : length - 0 ≡ length = omega arith in
    let head =
      hex_sent fuel (mem h) at "Memory dump from 0x%llx (length %zu):\n" "Memory dump from 0x"
        " (length %zu):\n" addr (length ∷ []) placed.0 refl refl refl refl
        (omega arith, omega arith) (omega arith, omega arith) in
    let rows =
      dump_rows-rows_text fuel (mem h) at bytes placed enough (length / 16 + 1) addr length 0 fits
        (omega arith) (omega arith) (omega arith) in
    (rw (z, ok) refl, rw (z, ok) (cons_sent fuel (mem h) at _ _ _ _ head (rw (e, f) at rows)))
  where
    low : is_address_valid h.pmm addr length ≡ true → 64 ≤ addr
    low e = unfold is_address_valid in ground arith
