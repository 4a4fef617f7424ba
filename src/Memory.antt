-- ===== src/Memory.antt =====
-- Byte-addressed memory, and `memset` and `memcpy` of src/lib/string.c on it. An address is a
-- number; a byte stands at every address.
pub mod Access
use meringue_os.Prelude.{
  ℕ, zero, suc, ◌+◌, ◌-◌, ◌%◌, ◌≤◌, ◌<◌, ◌≡◌, ◌⊎◌, inl, inr, ◌∙◌, Bool-cases, Bool, true, false,
  ◌&&◌, arith, ltb, leb, ◌==◌, if◌then◌else◌,
}

abbrev pub Mem : Type 0
Mem = ℕ → ℕ

abbrev pub IsBytes : Mem → Type 0
IsBytes m = (a : ℕ) → m a < 256

-- `*p = v` for an `unsigned char *p`.
unfoldable pub write : Mem → ℕ → ℕ → Mem
write m p v a = if a == p then v % 256 else m a

-- The loop counts `n` down and moves `p` up; what `memset` returns is `s` again.
unfoldable pub memset : Mem → ℕ → ℕ → ℕ → Mem
memset m s c zero = m
memset m s c (suc n) = memset (write m s c) (s + 1) c n

-- Bytes are copied upwards from the first, each read from the memory that the earlier writes left.
unfoldable pub memcpy : Mem → ℕ → ℕ → ℕ → Mem
memcpy m d s zero = m
memcpy m d s (suc n) = memcpy (write m d (m s)) (d + 1) (s + 1) n

-- Address `a` lies in the `n` bytes from `s`.
abbrev pub within : ℕ → ℕ → ℕ → Bool
within s n a = leb s a && ltb a (s + n)

pub memset_lem :
    (m : Mem) (s c n a : ℕ) → memset m s c n a ≡ (if within s n a then c % 256 else m a)
unfolding memset write
memset_lem m s c zero a = ground arith
memset_lem m s c (suc n) a = ground (arith, memset_lem (write m s c) (s + 1) c n a)

pub write-IsBytes : (m : Mem) (p v : ℕ) → IsBytes m → IsBytes (write m p v)
unfolding write
write-IsBytes m p v h a = ground (arith, h a)

pub memset-IsBytes : (m : Mem) (s c n : ℕ) → IsBytes m → IsBytes (memset m s c n)
memset-IsBytes m s c n h a = ground (arith, memset_lem m s c n a, h a)

-- The byte read for `a` is not the one that the first round writes.
read_past :
    (m : Mem) (d s n a v : ℕ)
    → (d ≤ s) ⊎ (s + suc n ≤ d)
    → within (d + 1) n a ≡ true
    → write m d v (s + 1 + (a - (d + 1))) ≡ m (s + (a - d))
unfolding write
read_past m d s n a v (inl h) w = ground arith
read_past m d s n a v (inr h) w = ground arith

shrink : (d s n : ℕ) → (d ≤ s) ⊎ (s + suc n ≤ d) → (d + 1 ≤ s + 1) ⊎ (s + 1 + n ≤ d + 1)
shrink d s n (inl h) = inl (omega arith)
shrink d s n (inr h) = inr (omega arith)

-- A byte outside the rest of the destination is the first one or is left alone.
write_outside :
    (m : Mem) (d s n a : ℕ)
    → m s < 256
    → within (d + 1) n a ≡ false
    → write m d (m s) a ≡ (if within d (suc n) a then m (s + (a - d)) else m a)
unfolding write
write_outside m d s n a b w = elim (Bool-cases (a == d)) [
  | inl here ↦ let at : s + (a - d) ≡ s = ground arith in rw (here, at) (ground arith)
  | inr off ↦ ground arith
]

-- In memory that holds bytes, where the destination starts at or below the source or behind its end,
-- `memcpy` makes the destination's bytes the source's old ones and leaves every other byte alone.
pub memcpy_lem :
    (m : Mem) (d s n a : ℕ)
    → IsBytes m
    → (d ≤ s) ⊎ (s + n ≤ d)
    → memcpy m d s n a ≡ (if within d n a then m (s + (a - d)) else m a)
unfolding memcpy
memcpy_lem m d s zero a b h = ground arith
memcpy_lem m d s (suc n) a b h =
    let ih =
      memcpy_lem (write m d (m s)) (d + 1) (s + 1) n a (write-IsBytes m d (m s) b)
        (shrink d s n h) in
    elim (Bool-cases (within (d + 1) n a)) [
      | inl w ↦ ground (arith, ih, read_past m d s n a (m s) h w)
      | inr w ↦ ih ∙ (rw w (write_outside m d s n a (b s) w))
    ]
