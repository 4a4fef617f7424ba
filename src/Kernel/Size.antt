-- ===== src/Kernel/Size.antt =====
-- The text of a size in `size_str`, as `boot_debug_copy` of src/boot/kernel.c makes it.
use meringue_os.Prelude.{
  ℕ, zero, suc, ◌+◌, ◌/◌, ◌%◌, ◌^◌, ◌≤◌, ◌<◌, ◌≡◌, ◌≢◌, refl, true, false, some, ◌==◌, leb,
  if◌then◌else◌, List, [], ◌∷◌, length, All, arith, Bool-cases, inl, inr,
}
use meringue_os.Memory.{Mem, IsBytes, write, write-IsBytes, within}
use meringue_os.Strings.Walks.{IsString}
use meringue_os.Stdio.{digit_char, number_room}
use meringue_os.Stdio.Numerals.{
  places, numeral, places_enough, length-places, digits_full, length-map,
}
use mathlib.Core.Path.{subst}
use meringue_os.Kernel.{size_room, size_digits, swap, reverse_loop, size_text}
use meringue_os.Kernel.Decimal.{
  Forwards, Forwards-Backwards, swap-IsBytes, reverse_loop_lem, digits_of, Written,
  size_digits-Written,
}

IsString-Forwards :
    (m : Mem) (p : ℕ) (cs : List ℕ)
    → Forwards m p cs
    → All (λ c. c ≢ 0) cs
    → m (p + length cs) ≡ 0
    → IsString m p cs
IsString-Forwards m p [] f full end = let e : p + 0 ≡ p = omega arith in rw e at end
IsString-Forwards m p (c ∷ cs) (here, f) (ne, full) end =
    let e : p + suc (length cs) ≡ p + 1 + length cs = omega arith in
    (here, ne, IsString-Forwards m (p + 1) cs f full (rw e at end))

-- What is shown of a size: the decimal numeral of its low 32 bits, but nothing where they are negative
-- as an `int`.
abbrev pub shown_size : ℕ → List ℕ
shown_size size = if leb (2 ^ 31) (size % 2 ^ 32) then [] else numeral false 10 (size % 2 ^ 32)

pub shown_size-lt : (fuel size : ℕ) → 20 < fuel → length (shown_size size) < fuel
shown_size-lt fuel size h =
    let ds = places 10 number_room (size % 2 ^ 32) in
    let l = length-map (digit_char false) ds in
    let k = length-places 10 (omega arith) number_room (size % 2 ^ 32) in
    elim (Bool-cases (leb (2 ^ 31) (size % 2 ^ 32))) [
      | inl neg ↦ rw neg (omega arith)
      | inr small ↦ rw small (omega (arith, l, k))
    ]

small_digits :
    (v : ℕ)
    → v < 2 ^ 31
    → (v == 0) ≡ false
    → (digits_of 15 v ≡ numeral false 10 v) × (length (digits_of 15 v) ≤ 10)
small_digits v h n =
    let a = places_enough 10 10 15 v (omega arith) (omega arith) (omega arith) (omega arith) in
    let b = places_enough 10 10 20 v (omega arith) (omega arith) (omega arith) (omega arith) in
    let l = length-places 10 (omega arith) 10 v in
    (
      rw (n, a, b) refl,
      rw (n, a) (omega (arith, l, length-map (digit_char false) (places 10 10 v))),
    )

-- The digits that stand backwards are turned round in place.
turned :
    (p : ℕ) (cs : List ℕ) (m m' : Mem)
    → All (λ c. c ≢ 0) cs
    → length cs < size_room
    → Written p 0 cs m m'
    → IsString (reverse_loop (length cs / 2) p (length cs) 0 (write m' (p + length cs) 0)) p cs
unfolding write
turned p cs m m' full short w =
    let n = length cs in
    let k = write m' (p + n) 0 in
    let b = write-IsBytes m' (p + n) 0 w.bytes in
    let at = λ (a : ℕ). reverse_loop_lem (n / 2) p n 0 k a b (omega arith) in
    let e : p + 0 ≡ p = omega arith in
    IsString-Forwards _ p cs
      (Forwards-Backwards m' _ p p cs (λ a lt. ground (arith, at (p + a))) (rw e at w.digits)) full
      (ground (arith, at (p + n)))

reverse_loop-IsBytes :
    (rounds p i j : ℕ) (m : Mem) → IsBytes m → IsBytes (reverse_loop rounds p i j m)
unfolding reverse_loop
reverse_loop-IsBytes zero p i j m b = b
reverse_loop-IsBytes (suc rounds) p i j m b =
    reverse_loop-IsBytes rounds p i (j + 1) (swap p i j m) (swap-IsBytes p i j m b)

-- A text stands in `size_str`, and nothing else is written.
abbrev pub Puts : ℕ → ℕ → Mem → List ℕ → Type 0
Puts p size m cs =
    (m' : Mem) × (size_text p size m ≡ some m')
    × IsString m' p cs
    × ((a : ℕ) → within p size_room a ≡ false → m' a ≡ m a)
    × IsBytes m'

Puts-zero : (p size : ℕ) (m : Mem) → IsBytes m → size % 2 ^ 32 ≡ 0 → Puts p size m (b'0' ∷ [])
unfolding size_text write
Puts-zero p size m b z = (
  write (write m p b'0') (p + 1) 0,
  rw z refl,
  (ground arith, omega arith, ground arith),
  λ a out. ground arith,
  write-IsBytes _ (p + 1) 0 (write-IsBytes m p b'0' b),
)

Puts-nothing :
    (p size : ℕ) (m : Mem)
    → IsBytes m
    → (size % 2 ^ 32 == 0) ≡ false
    → leb (2 ^ 31) (size % 2 ^ 32) ≡ true
    → Puts p size m []
unfolding size_text size_digits reverse_loop write
Puts-nothing p size m b n neg = (
  write m (p + 0) 0,
  rw (n, neg) refl,
  ground arith,
  λ a out. ground arith,
  write-IsBytes m (p + 0) 0 b,
)

-- Behind the loop, the digits are turned round.
Puts-turned :
    (p size : ℕ) (m m1 : Mem) (cs : List ℕ)
    → (size % 2 ^ 32 == 0) ≡ false
    → leb (2 ^ 31) (size % 2 ^ 32) ≡ false
    → (size_digits 16 p (size % 2 ^ 32) 0 m ≡ some (0 + length cs, m1)) × Written p 0 cs m m1
    → All (λ c. c ≢ 0) cs
    → length cs < size_room
    → Puts p size m cs
unfolding size_text
Puts-turned p size m m1 cs n small (runs, w) full short =
    let e : 0 + length cs ≡ length cs = omega arith in
    let k = write m1 (p + length cs) 0 in
    let bytes = write-IsBytes m1 (p + length cs) 0 w.bytes in
    (
      reverse_loop (length cs / 2) p (length cs) 0 k,
      rw (n, small, runs, e) refl,
      turned p cs m m1 full short w,
      λ a out.
          let r = reverse_loop_lem (length cs / 2) p (length cs) 0 k a bytes (omega arith) in
          let kept = w.kept a in unfold write in ground (arith, r, kept),
      reverse_loop-IsBytes (length cs / 2) p (length cs) 0 k bytes,
    )

Puts-digits :
    (p size : ℕ) (m : Mem)
    → IsBytes m
    → (size % 2 ^ 32 == 0) ≡ false
    → leb (2 ^ 31) (size % 2 ^ 32) ≡ false
    → Puts p size m (numeral false 10 (size % 2 ^ 32))
Puts-digits p size m b n small =
    let low = size % 2 ^ 32 in
    let (same, short) = small_digits low (ground arith) n in
    let (m1, runs, w) = size_digits-Written 15 p low 0 m b (ground arith) in
    let written =
      subst (λ cs. (size_digits 16 p low 0 m ≡ some (0 + length cs, m1)) × Written p 0 cs m m1) same
        (runs, w) in
    let le : length (numeral false 10 low) ≤ 10 = subst (λ cs. length cs ≤ 10) same short in
    Puts-turned p size m m1 (numeral false 10 low) n small written
      (digits_full false (places 10 number_room low)) (omega (arith, le))

-- In memory that holds bytes, the conversion of any size writes only the 16 bytes of `size_str`, and
-- makes a string there: the decimal numeral of the size modulo 2 ^ 32 where that is below 2 ^ 31, and
-- the empty string where it is not.
pub size_text-shown_size : (p size : ℕ) (m : Mem) → IsBytes m → Puts p size m (shown_size size)
size_text-shown_size p size m b = elim (Bool-cases (size % 2 ^ 32 == 0)) [
  | inl z ↦
      let e : size % 2 ^ 32 ≡ 0 = ground arith in
      let f : shown_size size ≡ b'0' ∷ [] = unfold places in rw e refl in
      rw f (Puts-zero p size m b e)
  | inr n ↦ elim (Bool-cases (leb (2 ^ 31) (size % 2 ^ 32))) [
    | inl neg ↦ rw neg (Puts-nothing p size m b n neg)
    | inr small ↦ rw small (Puts-digits p size m b n small)
  ]
]
