-- ===== src/Kernel.antt =====
-- `early_debug_print` and `boot_debug_copy` of src/boot/kernel.c. The array `size_str` is on the stack,
-- and the literals are static data; their addresses are parameters. A walk over a string and a wait
-- for the UART run on fuel.
pub mod Decimal
pub mod Size
pub mod Copy
pub mod Main
use meringue_os.Prelude.{
  ℕ, zero, suc, ◌+◌, ◌-◌, ◌/◌, ◌%◌, ◌^◌, Option, none, some, ◌>>=◌, ◌==◌, leb, if◌then◌else◌,
}
use meringue_os.Memory.{Mem, write}
use meringue_os.Uart.{Device, send_char}

-- char size_str[16];
abbrev pub size_room : ℕ
size_room = 16

-- The addresses of `size_str` and of the literals before and behind it.
pub record BootText : Type 0 where
  pub head : ℕ
  pub size_str : ℕ
  pub tail : ℕ

-- while (tmp > 0) { size_str[i++] = '0' + (tmp % 10); tmp /= 10; }; `none` where the array is full.
unfoldable pub size_digits : ℕ → ℕ → ℕ → ℕ → Mem → Option (ℕ × Mem)
size_digits zero p tmp i m = none
size_digits (suc room) p tmp i m =
    let rest = size_digits room p (tmp / 10) (i + 1) (write m (p + i) (b'0' + tmp % 10)) in
    if tmp == 0 then some (i, m) else rest

unfoldable pub swap : ℕ → ℕ → ℕ → Mem → Mem
swap p i j m =
    let c = m (p + j) in write (write m (p + j) (m (p + (i - j - 1)))) (p + (i - j - 1)) c

-- The rounds that are left, from `j`.
unfoldable pub reverse_loop : ℕ → ℕ → ℕ → ℕ → Mem → Mem
reverse_loop zero p i j m = m
reverse_loop (suc rounds) p i j m = reverse_loop rounds p i (j + 1) (swap p i j m)

-- (int)size, as the loop sees it: a negative number ends it at once, as 0 does.
abbrev pub magnitude : ℕ → ℕ
magnitude low = if leb (2 ^ 31) low then 0 else low

-- The text of `size` in `size_str`, at `p`.
unfoldable pub size_text : ℕ → ℕ → Mem → Option Mem
size_text p size m =
    let low = size % 2 ^ 32 in
    if low == 0
    then some (write (write m p b'0') (p + 1) 0)
    else size_digits size_room p (magnitude low) 0 m >>= λ (i, m').
        some (reverse_loop (i / 2) p i 0 (write m' (p + i) 0))

module _ {D : Type 0} (dev : Device D) (wait : ℕ) where
  unfoldable pub early_debug_print : ℕ → Mem → ℕ → D → Option D
  early_debug_print zero m str d = none
  early_debug_print (suc fuel) m str d =
      let rest = send_char dev wait (m str) d >>= λ d. early_debug_print fuel m (str + 1) d in
      if m str == 0 then some d else rest

  unfoldable pub boot_debug_copy : BootText → ℕ → ℕ → Mem → D → Option (Mem × D)
  boot_debug_copy T fuel size m d = early_debug_print fuel m T.head d >>= λ d.
      size_text T.size_str size m >>= λ m. early_debug_print fuel m T.size_str d >>= λ d.
      early_debug_print fuel m T.tail d >>= λ d. some (m, d)
