-- ===== src/Tests.antt =====
-- Memory, strings, numbers and the shell's checks at small inputs.
mod Store
mod Exceptions
mod Stdio
mod Shell
mod Console
mod Boot
mod Commands
use meringue_os.Prelude.{
  ℕ, ◌+◌, ◌-◌, ◌%◌, ◌^◌, ◌<◌, ◌≡◌, ◌↔◌, inl, inr, refl, true, ◌&&◌, ◌||◌, some, List, [], ◌∷◌, ◌++◌,
  arith, length, min, ◌==◌, ltb, leb, if◌then◌else◌,
}
use meringue_os.Prelude.Int.{ℤ, pos}
use meringue_os.Memory.{Mem, IsBytes, memcpy, memcpy_lem, within}
use meringue_os.Frames.{Pmm}
use meringue_os.Heap.{Kheap, mem}
use meringue_os.Strings.{strlen, strlen_loop, strcmp, strspn, strpbrk, strtok, Token}
use meringue_os.Strings.Walks.{IsString, leading, word, strcmp-zero, strspn-leading, strpbrk-word}
use meringue_os.Strings.Tokens.{Next, strtok-Next}
use meringue_os.Numbers.{
  simple_strtoull, u64_max, skip_space, skip_sign, pick_base, digit_loop, skip_digits,
}
use meringue_os.Numbers.Digits.{value}
use meringue_os.Numbers.Parse.{base_of, digits_of, left_over, simple_strtoull-value}

-- "ab  0x1F" at 100, and " " at 200.
abbrev text : List ℕ
text = b'a' ∷ b'b' ∷ b' ' ∷ b' ' ∷ b'0' ∷ b'x' ∷ b'1' ∷ b'F' ∷ []

abbrev byte_at : List ℕ → ℕ → ℕ
byte_at [] i = 0
byte_at (c ∷ cs) ℕ.zero = c
byte_at (c ∷ cs) (ℕ.suc i) = byte_at cs i

abbrev memory : Mem
memory a =
    if ltb a 100
    then 0
    else if ltb a 110
    then byte_at text (a - 100)
    else if leb 200 a && ltb a 201
    then b' '
    else 0

memory-IsBytes : IsBytes memory
memory-IsBytes a = ground arith

text-IsString : IsString memory 100 text
text-IsString = omega arith

space-IsString : IsString memory 200 (b' ' ∷ [])
space-IsString = omega arith

abbrev blanks : List ℕ
blanks = b' ' ∷ []

-- At 104, and with the blanks before it at 102.
abbrev hex : List ℕ
hex = b'0' ∷ b'x' ∷ b'1' ∷ b'F' ∷ []

abbrev spaced : List ℕ
spaced = b' ' ∷ b' ' ∷ hex

strcmp-zero_example :
    (r : ℤ) × (strcmp 20 memory 102 200 ≡ some r) × ((r ≡ pos 0) ↔ (spaced ≡ blanks))
strcmp-zero_example =
    strcmp-zero 20 memory 102 200 spaced blanks (omega arith) space-IsString (omega arith)

strtok-Next_example :
    (t : Token) × (strtok 20 memory 0 100 200 ≡ some t) × Next (b' ' ∷ []) memory 100 text t
strtok-Next_example =
    strtok-Next 20 memory 0 100 200 100 text (b' ' ∷ []) refl (omega arith) text-IsString
      space-IsString (omega arith)

simple_strtoull-value_example :
    simple_strtoull 20 memory 104 0
    ≡ some (
        if ltb (base_of 0 hex) 2 || ltb 16 (base_of 0 hex) then (0, 104) else (
          min (value (base_of 0 hex) 0 (digits_of 0 hex)) u64_max,
          104 + length hex - left_over 0 hex,
        ))
simple_strtoull-value_example =
    simple_strtoull-value 20 memory 104 0 hex (omega arith) (omega arith)

reads_hex : simple_strtoull 20 memory 104 0 ≡ some (31, 108)
unfolding simple_strtoull skip_space skip_sign pick_base digit_loop skip_digits
reads_hex = refl

memcpy_lem_example :
    memcpy memory 300 100 8 304
    ≡ (if within 300 8 304 then memory (100 + (304 - 300)) else memory 304)
memcpy_lem_example = memcpy_lem memory 300 100 8 304 memory-IsBytes (inr (omega arith))

strspn-leading_example : strspn 20 memory 102 200 ≡ some (length (leading blanks spaced))
strspn-leading_example =
    strspn-leading 20 memory 102 200 spaced blanks (omega arith) space-IsString (omega arith)

strpbrk-word_example :
    strpbrk 20 memory 100 200
    ≡ some (if length (word blanks text) == length text then 0 else 100 + length (word blanks text))
strpbrk-word_example =
    strpbrk-word 20 memory 100 200 text blanks text-IsString space-IsString (omega arith)
