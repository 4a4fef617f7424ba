-- ===== src/Frames/Bitmap.antt =====
-- The bitmap of src/memory/frame_alloc.c as a set of frame numbers: `set_bit`, `clear_bit` and
-- `test_bit` by bits, and the number of clear bits.
use meringue_os.Prelude.{
  ℕ, zero, suc, ◌+◌, ◌/◌, ◌%◌, ◌≤◌, ◌<◌, ◌≡◌, refl, Bool, true, false, ◌&&◌, ◌||◌, not, arith, ◌==◌,
  if◌then◌else◌, Bool-cases, inl, inr,
}
use meringue_os.Memory.{Mem, IsBytes, write, write-IsBytes}
use meringue_os.Frames.{set_bit, clear_bit, test_bit}
use meringue_os.Frames.Bits.{byte_test-byte_set, byte_test-byte_clear, byte_set-lt, byte_clear-lt}

module _ (bitmap : ℕ) (m : Mem) (bytes : IsBytes m) (i : ℕ) where
  -- In memory that holds bytes, setting the bit of frame `i` sets that bit and no other.
  pub test_bit-set_bit :
      (j : ℕ) → test_bit bitmap (set_bit bitmap m i) j ≡ ((i == j) || test_bit bitmap m j)
  unfolding test_bit set_bit write
  test_bit-set_bit j =
      let x = m (bitmap + i / 8) in
      ground (
        arith,
        byte_test-byte_set x (i % 8) (j % 8) (bytes _) (omega arith) (omega arith),
        byte_set-lt x (i % 8),
      )

  -- Clearing the bit of frame `i` clears that bit and no other.
  pub test_bit-clear_bit :
      (j : ℕ) → test_bit bitmap (clear_bit bitmap m i) j ≡ (not (i == j) && test_bit bitmap m j)
  unfolding test_bit clear_bit write
  test_bit-clear_bit j =
      let x = m (bitmap + i / 8) in
      ground (
        arith,
        byte_test-byte_clear x (i % 8) (j % 8) (bytes _) (omega arith) (omega arith),
        byte_clear-lt x (i % 8),
      )

  pub set_bit-IsBytes : IsBytes (set_bit bitmap m i)
  unfolding set_bit
  set_bit-IsBytes = write-IsBytes m _ _ bytes

  pub clear_bit-IsBytes : IsBytes (clear_bit bitmap m i)
  unfolding clear_bit
  clear_bit-IsBytes = write-IsBytes m _ _ bytes

-- The number of frames below `n` that a test finds free.
unfoldable pub count_clear : ℕ → (ℕ → Bool) → ℕ
count_clear zero f = 0
count_clear (suc n) f = (if f n then 0 else 1) + count_clear n f

pub count_clear-eq :
    (n : ℕ) (f g : ℕ → Bool) → ((j : ℕ) → j < n → f j ≡ g j) → count_clear n f ≡ count_clear n g
unfolding count_clear
count_clear-eq zero f g h = refl
count_clear-eq (suc n) f g h = ground (arith, h n, count_clear-eq n f g (λ j p. h j (omega arith)))

-- One more set bit is one clear bit less.
pub count_clear-set :
    (n i : ℕ) (f g : ℕ → Bool)
    → i < n
    → f i ≡ false
    → ((j : ℕ) → j < n → g j ≡ ((i == j) || f j))
    → count_clear n f ≡ suc (count_clear n g)
unfolding count_clear
count_clear-set zero i f g p free h = absurd (omega arith)
count_clear-set (suc n) i f g p free h = elim (Bool-cases (i == n)) [
  | inl last ↦
      let e : i ≡ n = ground arith in
      ground (arith, h n, count_clear-eq n f g (λ j q. ground (arith, h j)), ap-free e)
  | inr before ↦
      ground (arith, h n, count_clear-set n i f g (ground arith) free (λ j q. h j (omega arith)))
]
  where
    ap-free : i ≡ n → f n ≡ false
    ap-free e = ground arith

pub count_clear-le : (n : ℕ) (f : ℕ → Bool) → count_clear n f ≤ n
unfolding count_clear
count_clear-le zero f = omega arith
count_clear-le (suc n) f = ground (arith, count_clear-le n f)

pub count_clear_none : (n : ℕ) (f : ℕ → Bool) → ((j : ℕ) → j < n → f j ≡ true) → count_clear n f ≡ 0
unfolding count_clear
count_clear_none zero f h = refl
count_clear_none (suc n) f h = ground (arith, h n, count_clear_none n f (λ j p. h j (omega arith)))
