-- ===== src/Frames/Bits.antt =====
-- The bits of one byte of the frame bitmap, and what setting and clearing one does to the others.
use meringue_os.Prelude.{
  ℕ, ◌%◌, ◌^◌, ◌<◌, bit_and, bit_or, bit_xor, ◌≡◌, refl, Bool, true, ◌&&◌, ◌||◌, not, arith, ◌==◌,
  each_under, each_under_lem, bool_eq, bool_eq_sound,
}

-- 1 << k
abbrev pub mask : ℕ → ℕ
mask k = 2 ^ k

-- `byte |= (1 << k)`, `byte &= ~(1 << k)` and `(byte & (1 << k)) != 0`: the operands are 32-bit
-- integers, and the result is cut to a `uint8_t`.
pub byte_set : ℕ → ℕ → ℕ
byte_set x k = bit_or x (mask k) % 256

pub byte_clear : ℕ → ℕ → ℕ
byte_clear x k = bit_and x (bit_xor 0xffff_ffff (mask k)) % 256

pub byte_test : ℕ → ℕ → Bool
byte_test x k = not (bit_and x (mask k) == 0)

set_row : ℕ → ℕ → ℕ → Bool
unfolding byte_set byte_test
set_row x k j = bool_eq (byte_test (byte_set x k) j) ((k == j) || byte_test x j)

clear_row : ℕ → ℕ → ℕ → Bool
unfolding byte_clear byte_test
clear_row x k j = bool_eq (byte_test (byte_clear x k) j) (not (k == j) && byte_test x j)

set_table : each_under (λ x. each_under (λ k. each_under (set_row x k) 8) 8) 256 ≡ true
unfolding each_under set_row
set_table = refl

clear_table : each_under (λ x. each_under (λ k. each_under (clear_row x k) 8) 8) 256 ≡ true
unfolding each_under clear_row
clear_table = refl

full_table : each_under (byte_test 0xff) 8 ≡ true
unfolding each_under byte_test
full_table = refl

module _ (x k j : ℕ) (hx : x < 256) (hk : k < 8) (hj : j < 8) where
  pub byte_test-byte_set : byte_test (byte_set x k) j ≡ ((k == j) || byte_test x j)
  unfolding set_row
  byte_test-byte_set =
      bool_eq_sound _ _
        (each_under_lem _ 8 j (each_under_lem _ 8 k (each_under_lem _ 256 x set_table hx) hk) hj)

  pub byte_test-byte_clear : byte_test (byte_clear x k) j ≡ (not (k == j) && byte_test x j)
  unfolding clear_row
  byte_test-byte_clear =
      bool_eq_sound _ _
        (each_under_lem _ 8 j (each_under_lem _ 8 k (each_under_lem _ 256 x clear_table hx) hk) hj)

pub byte_test_full : (j : ℕ) → j < 8 → byte_test 0xff j ≡ true
byte_test_full j h = each_under_lem _ 8 j full_table h

pub byte_set-lt : (x k : ℕ) → byte_set x k < 256
unfolding byte_set
byte_set-lt x k = omega arith

pub byte_clear-lt : (x k : ℕ) → byte_clear x k < 256
unfolding byte_clear
byte_clear-lt x k = omega arith
