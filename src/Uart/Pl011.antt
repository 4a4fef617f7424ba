-- ===== src/Uart/Pl011.antt =====
-- What src/lib/uart.c relies on of the PL011: the flags of its transmit and receive FIFOs.
use meringue_os.Prelude.{ℕ, ◌-◌, ◌%◌, ◌≤◌, ◌≡◌, ◌==◌, true, false, List, [], ◌∷◌, ◌++◌, bit_and}
use meringue_os.Uart.{Device, uart_dr, uart_fr, rxfe, txff}

pub record IsPl011 {D : Type 0} (dev : Device D) : Type 0 where
  -- The characters that were accepted so far, the reads of the flags until there is space, of which
  -- there are at most `patience`, and the characters that were received and not read yet.
  pub sent : D → List ℕ
  pub wait : D → ℕ
  pub patience : ℕ
  pub pending : D → List ℕ
  -- The flags.
  pub full : (d : D) → (bit_and (dev.read uart_fr d).0 txff == 0) ≡ (wait d == 0)
  pub empty : (d : D) → pending d ≡ [] → (bit_and (dev.read uart_fr d).0 rxfe == 0) ≡ false
  pub ready :
      (d : D) (c : ℕ) (cs : List ℕ)
      → pending d ≡ c ∷ cs
      → (bit_and (dev.read uart_fr d).0 rxfe == 0) ≡ true
  -- Reading them.
  pub fr_sent : (d : D) → sent (dev.read uart_fr d).1 ≡ sent d
  pub fr_wait : (d : D) → wait (dev.read uart_fr d).1 ≡ wait d - 1
  pub fr_pending : (d : D) → pending (dev.read uart_fr d).1 ≡ pending d
  -- The data register.
  pub patient : (d : D) → wait d ≤ patience
  pub dr_sent :
      (d : D) (c : ℕ) → wait d ≡ 0 → sent (dev.write uart_dr c d) ≡ sent d ++ (c % 256) ∷ []
  pub dr_value :
      (d : D) (c : ℕ) (cs : List ℕ) → pending d ≡ c ∷ cs → (dev.read uart_dr d).0 % 256 ≡ c
  pub dr_pending :
      (d : D) (c : ℕ) (cs : List ℕ) → pending d ≡ c ∷ cs → pending (dev.read uart_dr d).1 ≡ cs
