-- ===== src/Tests/Stdio.antt =====
-- `kprintf` on small formats, and on one that overruns the buffer.
use meringue_os.Prelude.{
  ℕ, zero, suc, ◌+◌, ◌≡◌, ◌≤◌, ◌<◌, refl, true, some, ◌==◌, if◌then◌else◌, List, [], ◌∷◌, ◌++◌,
  length, All, arith, codes,
}
use meringue_os.Memory.{Mem, within}
use meringue_os.Strings.Walks.{IsString}
use meringue_os.Numbers.{simple_strtoull}
use meringue_os.Stdio.{buffer_size, until_nul, kprintf}
use meringue_os.Stdio.Numerals.{places, numeral}
use meringue_os.Stdio.Reading.{simple_strtoull-hex}
use meringue_os.Stdio.Pieces.{Piece, IsPiece, literal, string, integer, texts}
use meringue_os.Stdio.Render.{kprintf-texts}
use meringue_os.Stdio.Buffer.{Plain, kprintf_overrun}
use meringue_os.Tests.Store.{texts_at, is_string_sound}

-- "%s: %d\n" with "x" and -5.
abbrev pieces : List Piece
pieces =
    string 500 (codes "x") ∷ literal b':' ∷ literal b' ' ∷ integer 0xffff_fffb ∷ literal b'\n' ∷ []

abbrev memory : Mem
memory = texts_at ((100, codes "%s: %d\n") ∷ (500, codes "x") ∷ [])

pieces-All : All (IsPiece memory 1) pieces
pieces-All = (
  ((omega arith), is_string_sound memory 500 (codes "x") refl, omega arith),
  (
    (omega arith, omega arith),
    ((omega arith, omega arith), (tt, ((omega arith, omega arith), tt))),
  ),
)

format-IsString : IsString memory 100 (codes "%s: %d\n")
format-IsString = is_string_sound memory 100 (codes "%s: %d\n") refl

short : length (texts pieces) < 1023
unfolding places
short = omega arith

shows : until_nul (texts pieces) ≡ codes "x: -5\n"
unfolding places
shows = refl

kprintf-texts_example :
    kprintf 20 memory 100 (500 ∷ 0xffff_fffb ∷ [])
    ≡ some (until_nul (texts pieces), length (texts pieces))
kprintf-texts_example =
    kprintf-texts 20 memory 100 1 pieces [] pieces-All format-IsString short (omega arith)

-- "0x" and the numeral of 48879.
abbrev number_memory : Mem
number_memory = texts_at ((100, codes "0xBEEF") ∷ [])

beef : numeral true 16 48879 ≡ codes "BEEF"
unfolding places
beef = refl

simple_strtoull-hex_example :
    simple_strtoull 20 number_memory 100 0
    ≡ some (48879, 100 + (length (numeral true 16 48879) + 2))
simple_strtoull-hex_example =
    simple_strtoull-hex 20 number_memory 100 true 48879 (omega arith)
      (is_string_sound number_memory 100 (b'0' ∷ b'x' ∷ numeral true 16 48879)
        (unfold places in refl))
      (unfold places in omega arith)

abbrev many : ℕ → List ℕ
many zero = []
many (suc n) = b'a' ∷ many n

many-Plain : (n : ℕ) → All Plain (many n)
many-Plain zero = tt
many-Plain (suc n) = ((omega arith, omega arith), many-Plain n)

abbrev long_memory : Mem
long_memory a =
    if within 1000 1022 a then b'a' else if a == 2022 then b'%' else if a == 2023 then b'z' else 0

many-IsString :
    (p n : ℕ) → 1000 ≤ p → p + n ≡ 2022 → IsString long_memory p (many n ++ b'%' ∷ b'z' ∷ [])
many-IsString p zero low h = (ground arith, omega arith, (ground arith, omega arith, ground arith))
many-IsString p (suc n) low h =
    (ground arith, omega arith, many-IsString (p + 1) n (omega arith) (omega arith))

length-many : (n : ℕ) → length (many n) ≡ n
length-many zero = refl
length-many (suc n) = omega (arith, length-many n)

kprintf_overrun_example :
    kprintf (length (many 1022) + suc (suc 0)) long_memory 1000 []
    ≡ some (until_nul (many 1022 ++ b'%' ∷ b'z' ∷ []), buffer_size)
kprintf_overrun_example =
    kprintf_overrun 0 long_memory 1000 b'z' [] (many 1022) (many-Plain 1022) (length-many 1022) refl
      (many-IsString 1000 1022 (omega arith) refl)
