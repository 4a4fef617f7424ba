-- ===== src/Kernel/Decimal.antt =====
-- The decimal text that `boot_debug_copy` of src/boot/kernel.c makes of a size.
use native.Mathlib.Nat.{mod-lt, div-lt_iff_lt-mul, pow-suc, pow-zero}
use meringue_os.Prelude.{
  ℕ, zero, suc, ◌+◌, ◌-◌, ◌/◌, ◌%◌, ◌^◌, ◌≤◌, ◌<◌, ◌≡◌, refl, ap, ◌∙◌, false, some, ◌==◌, leb, ltb,
  ◌&&◌, if◌then◌else◌, List, [], ◌∷◌, ◌++◌, length, length-append, map, arith, Bool-cases, inl, inr,
}
use mathlib.Core.List.{map-append}
use meringue_os.Memory.{Mem, IsBytes, write, write-IsBytes, within}
use meringue_os.Stdio.{digit_char}
use meringue_os.Stdio.Numerals.{places}
use meringue_os.Kernel.{size_digits, swap, reverse_loop}

-- The bytes `cs` stand at `p`, the last one first.
abbrev pub Backwards : Mem → ℕ → List ℕ → Type 0
Backwards m p [] = Unit
Backwards m p (c ∷ cs) = (m (p + length cs) ≡ c) × Backwards m p cs

-- The bytes `cs` stand at `p`.
abbrev pub Forwards : Mem → ℕ → List ℕ → Type 0
Forwards m p [] = Unit
Forwards m p (c ∷ cs) = (m p ≡ c) × Forwards m (p + 1) cs

-- Reversed, bytes that stand backwards stand forwards.
pub Forwards-Backwards :
    (m k : Mem) (p q : ℕ) (cs : List ℕ)
    → ((a : ℕ) → a < length cs → k (q + a) ≡ m (p + (length cs - a - 1)))
    → Backwards m p cs
    → Forwards k q cs
Forwards-Backwards m k p q [] turned b = tt
Forwards-Backwards m k p q (c ∷ cs) turned b = (
  (let e = turned 0 (omega arith) in
      let f : q + 0 ≡ q = omega arith in
      let g : length (c ∷ cs) - 0 - 1 ≡ length cs = omega arith in (rw (f, g) at e) ∙ b.0),
  Forwards-Backwards m k p (q + 1) cs
      (λ a lt.
        let e = turned (a + 1) (omega arith) in
        let f : q + (a + 1) ≡ q + 1 + a = omega arith in
        let g : length (c ∷ cs) - (a + 1) - 1 ≡ length cs - a - 1 = omega arith in rw (f, g) at e)
      b.1,
)

pub swap-IsBytes : (p i j : ℕ) (m : Mem) → IsBytes m → IsBytes (swap p i j m)
unfolding swap
swap-IsBytes p i j m b = write-IsBytes _ _ _ (write-IsBytes m (p + j) (m (p + (i - j - 1))) b)

swap_lem :
    (p i j : ℕ) (m : Mem) (a : ℕ)
    → IsBytes m
    → j + 1 ≤ i - j - 1
    → swap p i j m a ≡ (
        if a == p + j then m (p + (i - j - 1)) else if a == p + (i - j - 1) then m (p + j) else m a)
unfolding swap write
swap_lem p i j m a b h = ground (arith, b (p + j), b (p + (i - j - 1)))

-- From round `j` on, the characters between are turned round, and all others stay.
pub reverse_loop_lem :
    (rounds p i j : ℕ) (m : Mem) (a : ℕ)
    → IsBytes m
    → j + rounds ≡ i / 2
    → reverse_loop rounds p i j m a
      ≡ (if leb (p + j) a && ltb a (p + i - j) then m (p + (i - (a - p) - 1)) else m a)
unfolding reverse_loop
reverse_loop_lem zero p i j m a b h = ground arith
reverse_loop_lem (suc rounds) p i j m a b h =
    let far = p + (i - (a - p) - 1) in
    let next =
      reverse_loop_lem rounds p i (j + 1) (swap p i j m) a (swap-IsBytes p i j m b) (omega arith) in
    let here = swap_lem p i j m a b (omega arith) in
    let there = swap_lem p i j m far b (omega arith) in ground (arith, next, here, there)

-- The digits of a number, of which 0 has none.
abbrev pub digits_of : ℕ → ℕ → List ℕ
digits_of room v = if v == 0 then [] else map (digit_char false) (places 10 room v)

digits_of-suc :
    (room v : ℕ)
    → (v == 0) ≡ false
    → digits_of (suc room) v ≡ digits_of room (v / 10) ++ digit_char false (v % 10) ∷ []
unfolding places
digits_of-suc room v h = elim (Bool-cases (v / 10 == 0)) [
  | inl z ↦ rw (h, z) refl
  | inr n ↦ rw (h, n) (map-append (digit_char false) (places 10 room (v / 10)) ((v % 10) ∷ []))
]

Backwards-snoc :
    (m : Mem) (p c : ℕ) (cs : List ℕ)
    → m p ≡ c
    → Backwards m (p + 1) cs
    → Backwards m p (cs ++ c ∷ [])
Backwards-snoc m p c [] e b = let f : p + 0 ≡ p = omega arith in (rw f e, tt)
Backwards-snoc m p c (d ∷ cs) e b =
    let l = length-append cs (c ∷ []) in
    let f : p + length (cs ++ c ∷ []) ≡ p + 1 + length cs = omega (arith, l) in
    (rw f (b.0), Backwards-snoc m p c cs e b.1)

-- What the loop leaves, from position `i` on.
pub record Written (p i : ℕ) (cs : List ℕ) (m m' : Mem) : Type 0 where
  pub digits : Backwards m' (p + i) cs
  pub bytes : IsBytes m'
  pub kept : (a : ℕ) → within (p + i) (length cs) a ≡ false → m' a ≡ m a

pub size_digits-Written :
    (room p v i : ℕ) (m : Mem)
    → IsBytes m
    → v < 10 ^ room
    → (m' : Mem) × (size_digits (suc room) p v i m ≡ some (i + length (digits_of room v), m'))
      × Written p i (digits_of room v) m m'
unfolding size_digits write
size_digits-Written zero p v i m b h =
    let z : v ≡ 0 = omega (arith, pow-zero 10) in
    let e : i + 0 ≡ i = omega arith in
    (m, rw (z, e) refl, rw z (record { digits = tt; bytes = b; kept = λ a w. refl }))
size_digits-Written (suc room) p v i m b h = elim (Bool-cases (v == 0)) [
  | inl z ↦
      let e : i + 0 ≡ i = omega arith in
      (m, rw (z, e) refl, rw z (record { digits = tt; bytes = b; kept = λ a w. refl }))
  | inr n ↦
      let less : v / 10 < 10 ^ room =
        (div-lt_iff_lt-mul (omega arith)).1 (omega (arith, pow-suc 10 room, h)) in
      let lt : v % 10 < 10 = mod-lt v (omega arith) in
      let k = write m (p + i) (b'0' + v % 10) in
      let (m', runs, w) =
        size_digits-Written room p (v / 10) (i + 1) k (write-IsBytes m (p + i) (b'0' + v % 10) b)
          less in
      let cs = digits_of room (v / 10) in
      let l = length-append cs (digit_char false (v % 10) ∷ []) in
      let e : i + 1 + length cs ≡ i + length (cs ++ digit_char false (v % 10) ∷ []) =
        omega (arith, l) in
      let f : p + (i + 1) ≡ p + i + 1 = omega arith in
      let last : m' (p + i) ≡ digit_char false (v % 10) = ground (arith, w.kept (p + i)) in
      (
        m',
        rw (digits_of-suc room v n, n) (runs ∙ ap (λ x. some (x, m')) e),
        rw (digits_of-suc room v n) (record {
          digits = Backwards-snoc m' (p + i) _ cs last (rw f at w.digits);
          bytes = w.bytes;
          kept = λ a out. ground (arith, w.kept a, l);
        }),
      )
]
