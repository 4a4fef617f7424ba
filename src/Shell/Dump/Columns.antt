-- ===== src/Shell/Dump/Columns.antt =====
-- The columns of a dump by `memdump` of src/shell/shell.c, as `kprintf` sends them.
use meringue_os.Prelude.{
  ℕ, zero, suc, ◌+◌, ◌-◌, ◌%◌, ◌≤◌, ◌<◌, ◌≡◌, refl, ap, ◌∙◌, ◌||◌, false, some, arith, ltb, ◌==◌,
  if◌then◌else◌, List, [], ◌∷◌, ◌++◌, length, drop, String, codes, word_mod, add64, Bool-cases, inl,
  inr,
}
use meringue_os.Memory.{Mem, IsBytes}
use meringue_os.Stdio.Pieces.{character}
use meringue_os.Stdio.Calls.{Print, print, sent, all_sent, Placed, sent-texts, raw_sent}
use meringue_os.Shell.Dump.{hex_loop, printable, ascii_loop}

-- `n` bytes from `addr`.
abbrev pub read_bytes : Mem → ℕ → ℕ → List ℕ
read_bytes m addr zero = []
read_bytes m addr (suc n) = m addr ∷ read_bytes m (addr + 1) n

-- The columns from number `j` on of a row whose bytes from there are `bs`: the format of a byte stands
-- as it is.
abbrev pub hex_columns : ℕ → ℕ → List ℕ → List ℕ
hex_columns zero j bs = []
hex_columns (suc n) j [] =
    codes "   " ++ ((if j == 7 then codes " " else []) ++ hex_columns n (j + 1) [])
hex_columns (suc n) j (b ∷ bs) =
    codes "%02x " ++ ((if j == 7 then codes " " else []) ++ hex_columns n (j + 1) bs)

-- A byte as a character: a full stop stands for what is below a space or above `~`.
abbrev pub shown_as : ℕ → ℕ
shown_as b = if ltb b b' ' || ltb b'~' b then b'.' else b

abbrev pub characters : ℕ → List ℕ → List ℕ
characters zero bs = []
characters (suc n) [] = codes " " ++ characters n []
characters (suc n) (b ∷ bs) = (shown_as b ∷ []) ++ characters n bs

-- The row of the first 16 bytes.
abbrev pub row_text : List ℕ → List ℕ
row_text bs =
    codes "%016llx: " ++ (hex_columns 16 0 bs ++ (codes " |" ++ (characters 16 bs ++ codes "|\n")))

-- Rows of 16 bytes, until there are none left, in at most `n` rows.
abbrev pub rows_text : ℕ → List ℕ → List ℕ
rows_text zero bs = []
rows_text (suc n) [] = []
rows_text (suc n) (b ∷ bs) = row_text (b ∷ bs) ++ rows_text n (drop 16 (b ∷ bs))

abbrev pub dump_formats : List String
dump_formats =
    "Memory dump from 0x%llx (length %zu):\n" ∷ "%016llx: " ∷ "%02x " ∷ "   " ∷ " " ∷ " |" ∷ "%c"
    ∷ "|\n" ∷ []

module _ (fuel : ℕ) (m : Mem) (at : String → ℕ) (bytes : IsBytes m)
    (placed : Placed m at dump_formats) (enough : 60 < fuel) where
  space_sent : sent fuel m at (print " " []) ≡ some (codes " ")
  space_sent = raw_sent fuel m at " " [] placed.1.1.1.1.0 refl refl refl (omega arith, omega arith)

  byte_sent : (b : ℕ) → sent fuel m at (print "%02x " (b ∷ [])) ≡ some (codes "%02x ")
  byte_sent b =
      raw_sent fuel m at "%02x " (b ∷ []) placed.1.1.0 refl refl refl (omega arith, omega arith)

  blank_sent : sent fuel m at (print "   " []) ≡ some (codes "   ")
  blank_sent = raw_sent fuel m at "   " [] placed.1.1.1.0 refl refl refl (omega arith, omega arith)

  -- A cell, the gap behind the eighth, and the cells behind.
  cell_sent :
      (j : ℕ) (p : Print) (ps : List Print) (cell others : List ℕ)
      → sent fuel m at p ≡ some cell
      → all_sent fuel m at ps ≡ some others
      → all_sent fuel m at (p ∷ ((if j == 7 then print " " [] ∷ [] else []) ++ ps))
        ≡ some (cell ++ ((if j == 7 then codes " " else []) ++ others))
  unfolding all_sent
  cell_sent j p ps cell others e f = elim (Bool-cases (j == 7)) [
    | inl gap ↦ rw (gap, e, space_sent, f) refl
    | inr no_gap ↦ rw (no_gap, e, f) refl
  ]

  pub hex_loop-hex_columns :
      (rounds addr length i j : ℕ)
      → addr + length ≤ word_mod
      → i + j + rounds ≤ word_mod
      → all_sent fuel m at (hex_loop rounds m addr length i j)
        ≡ some (hex_columns rounds j (read_bytes m (addr + (i + j)) (length - (i + j))))
  unfolding hex_loop
  hex_loop-hex_columns zero addr length i j fits small = unfold all_sent in refl
  hex_loop-hex_columns (suc rounds) addr length i j fits small =
      let next = hex_loop-hex_columns rounds addr length i (j + 1) fits (omega arith) in
      let place : add64 i j ≡ i + j = ground arith in
      elim (Bool-cases (ltb (i + j) length)) [
        | inl y ↦
            let more : length - (i + j) ≡ suc (length - (i + (j + 1))) = ground arith in
            let along : addr + (i + j) + 1 ≡ addr + (i + (j + 1)) = omega arith in
            rw (place, y, more, along) (cell_sent j _ _ _ _ (byte_sent _) next)
        | inr n ↦
            let none_left : length - (i + j) ≡ 0 = ground arith in
            let none_next : length - (i + (j + 1)) ≡ 0 = ground arith in
            rw (place, n, none_left) (cell_sent j _ _ _ _ blank_sent (rw none_next at next))
      ]

  character_sent :
      (b : ℕ) → b < 256 → sent fuel m at (print "%c" (printable b ∷ [])) ≡ some (shown_as b ∷ [])
  character_sent b h =
      let line =
        sent-texts fuel m at "%c" (character (printable b) ∷ []) [] placed.1.1.1.1.1.1.0 refl refl
          (omega arith) (omega arith) in
      let low : printable b % 256 ≡ printable b = ground arith in
      let full : (printable b == 0) ≡ false = ground arith in
      let same : printable b ≡ shown_as b = ground arith in
      ((rw (low, full) at line) ∙ ap (λ c. some (c ∷ [])) same)

  pub ascii_loop-characters :
      (rounds addr length i j : ℕ)
      → addr + length ≤ word_mod
      → i + j + rounds ≤ word_mod
      → all_sent fuel m at (ascii_loop rounds m addr length i j)
        ≡ some (characters rounds (read_bytes m (addr + (i + j)) (length - (i + j))))
  unfolding ascii_loop all_sent
  ascii_loop-characters zero addr length i j fits small = refl
  ascii_loop-characters (suc rounds) addr length i j fits small =
      let next = ascii_loop-characters rounds addr length i (j + 1) fits (omega arith) in
      let place : add64 i j ≡ i + j = ground arith in
      elim (Bool-cases (ltb (i + j) length)) [
        | inl y ↦
            let more : length - (i + j) ≡ suc (length - (i + (j + 1))) = ground arith in
            let along : addr + (i + j) + 1 ≡ addr + (i + (j + 1)) = omega arith in
            let where_at : add64 addr (i + j) ≡ addr + (i + j) = ground arith in
            rw
              (
                place,
                y,
                more,
                along,
                where_at,
                character_sent (m (addr + (i + j))) (bytes (addr + (i + j))),
                next,
              )
              refl
        | inr n ↦
            let none_left : length - (i + j) ≡ 0 = ground arith in
            let none_next : length - (i + (j + 1)) ≡ 0 = ground arith in
            rw (place, n, none_left, space_sent, (rw none_next at next)) refl
      ]
