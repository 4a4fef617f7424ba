-- ===== src/Uart.antt =====
-- src/lib/uart.c, and the calls of it in src/lib/stdio.c. The PL011 is no part of the program: its
-- registers are read and written through a parameter, and a read may change the device. A loop that
-- waits for the device runs on fuel: `none` means that it ran out.
pub mod Pl011
pub mod Sent
pub mod Received
use meringue_os.Prelude.{
  ℕ, zero, suc, ◌+◌, ◌%◌, Bool, true, false, not, Option, none, some, ◌>>=◌, ◌==◌, if◌then◌else◌,
  List, [], ◌∷◌, bit_and, bit_or,
}

-- Memory-mapped registers, by address.
pub record Device (D : Type 0) : Type 0 where
  pub read : ℕ → D → ℕ × D
  pub write : ℕ → ℕ → D → D

abbrev pub uart_base : ℕ
uart_base = 0x0900_0000

abbrev pub uart_dr : ℕ
uart_dr = uart_base + 0x00

abbrev pub uart_fr : ℕ
uart_fr = uart_base + 0x18

abbrev pub uart_ibrd : ℕ
uart_ibrd = uart_base + 0x24

abbrev pub uart_fbrd : ℕ
uart_fbrd = uart_base + 0x28

abbrev pub uart_lcrh : ℕ
uart_lcrh = uart_base + 0x2c

abbrev pub uart_cr : ℕ
uart_cr = uart_base + 0x30

abbrev pub uart_imsc : ℕ
uart_imsc = uart_base + 0x38

-- UART_FR_RXFE and UART_FR_TXFF.
abbrev pub rxfe : ℕ
rxfe = 0x10

abbrev pub txff : ℕ
txff = 0x20

module _ {D : Type 0} (dev : Device D) where
  unfoldable pub uart_init : D → D
  uart_init d =
      let d = dev.write uart_cr 0 d in
      let d = dev.write uart_ibrd 26 d in
      let d = dev.write uart_fbrd 3 d in
      let d = dev.write uart_lcrh (bit_or 0x60 0x10) d in
      let d = dev.write uart_imsc 0 d in dev.write uart_cr (bit_or (bit_or 0x01 0x100) 0x200) d

  -- while (*UART_FR & UART_FR_TXFF);
  unfoldable pub wait_for_space : ℕ → D → Option D
  wait_for_space zero d = none
  wait_for_space (suc fuel) d =
      let rest = wait_for_space fuel (dev.read uart_fr d).1 in
      if bit_and (dev.read uart_fr d).0 txff == 0 then some (dev.read uart_fr d).1 else rest

  unfoldable pub send_char : ℕ → ℕ → D → Option D
  send_char fuel c d = wait_for_space fuel d >>= λ d. some (dev.write uart_dr c d)

  -- The function calls itself at '\r', where it goes no further.
  unfoldable pub uart_putc : ℕ → ℕ → D → Option D
  uart_putc fuel c d =
      send_char fuel c d >>= λ d. if c == b'\n' then send_char fuel b'\r' d else some d

  unfoldable pub uart_getc : D → ℕ × D
  uart_getc d =
      let (flags, d') = dev.read uart_fr d in
      let (value, d'') = dev.read uart_dr d' in
      if not (bit_and flags rxfe == 0) then (0, d') else (value % 256, d'')

  unfoldable pub uart_is_data_available : D → Bool × D
  uart_is_data_available d = (bit_and (dev.read uart_fr d).0 rxfe == 0, (dev.read uart_fr d).1)

  -- The end of `kprintf`: while (*output_ptr) uart_putc(*output_ptr++);
  unfoldable pub send_text : ℕ → List ℕ → D → Option D
  send_text fuel [] d = some d
  send_text fuel (c ∷ cs) d =
      let rest = uart_putc fuel c d >>= λ d. send_text fuel cs d in if c == 0 then some d else rest

  unfoldable pub kgetc : D → ℕ × D
  kgetc d = uart_getc d

  unfoldable pub kgetc_blocking : ℕ → D → Option (ℕ × D)
  kgetc_blocking zero d = none
  kgetc_blocking (suc fuel) d =
      let (c, d') = uart_getc d in
      let rest = kgetc_blocking fuel d' in
      if c == 0 then rest else if c == b'\r' then some (b'\n', d') else some (c, d')
