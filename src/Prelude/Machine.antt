-- ===== src/Prelude/Machine.antt =====
-- The arithmetic of `uint64_t`, `size_t` and pointers on AArch64: numbers below 2 ^ 64.
use Prim.Native.Nat.{ℕ, ◌+◌, ◌-◌, ◌%◌, ◌^◌}

-- UINT64_MAX + 1.
abbrev pub word_mod : ℕ
word_mod = 2 ^ 64

-- a + b and a - b, with wrap-around; `-` on ℕ stops at 0, so the modulus is added first.
abbrev pub add64 : ℕ → ℕ → ℕ
add64 a b = (a + b) % word_mod

abbrev pub sub64 : ℕ → ℕ → ℕ
sub64 a b = (a + word_mod - b) % word_mod
