-- ===== src/Uart/Received.antt =====
-- What src/lib/uart.c and `kgetc_blocking` of src/lib/stdio.c receive.
use meringue_os.Prelude.{
  ℕ, zero, suc, ◌<◌, ◌≡◌, ap, ◌∙◌, Option, none, some, ◌==◌, if◌then◌else◌, List, [], ◌∷◌, length,
  arith, Bool-cases, inl, inr,
}
use meringue_os.Uart.{Device, uart_fr, uart_getc, kgetc_blocking}
use meringue_os.Uart.Pl011.{IsPl011}

-- The first character that is no NUL, as the line reader gets it, and those behind it.
abbrev pub next_char : List ℕ → Option (ℕ × List ℕ)
next_char [] = none
next_char (c ∷ cs) = if c == 0 then next_char cs else some (if c == b'\r' then b'\n' else c, cs)

module _ {D : Type 0} (dev : Device D) (p : IsPl011 dev) where
  uart_getc-pending :
      (d : D) (c : ℕ) (cs : List ℕ)
      → p.pending d ≡ c ∷ cs
      → ((uart_getc dev d).0 ≡ c) × (p.pending (uart_getc dev d).1 ≡ cs)
  unfolding uart_getc
  uart_getc-pending d c cs e =
      let flag = p.ready d c cs e in
      let same = p.fr_pending d ∙ e in
      (
        rw flag (p.dr_value (dev.read uart_fr d).1 c cs same),
        rw flag (p.dr_pending (dev.read uart_fr d).1 c cs same),
      )

  -- Where the PL011 has received a character that is no NUL, with fuel above the number of characters
  -- that it has received, `kgetc_blocking` returns the first such one, a line feed for a carriage
  -- return, and leaves those behind it.
  pub kgetc_blocking-next :
      (fuel : ℕ) (d : D) (input : List ℕ) (c : ℕ) (rest : List ℕ)
      → p.pending d ≡ input
      → next_char input ≡ some (c, rest)
      → length input < fuel
      → (d' : D) × (kgetc_blocking dev fuel d ≡ some (c, d')) × (p.pending d' ≡ rest)
  unfolding kgetc_blocking
  kgetc_blocking-next zero d input c rest at e h = absurd (omega arith)
  kgetc_blocking-next (suc fuel) d [] c rest at e h = absurd (cc)
  kgetc_blocking-next (suc fuel) d (x ∷ input) c rest at e h =
      let (got, left) = uart_getc-pending d x input at in
      elim (Bool-cases (x == 0)) [
        | inl z ↦
            let (d', runs, done) =
              kgetc_blocking-next fuel (uart_getc dev d).1 input c rest left (rw z at e)
                (omega arith) in
            (d', rw (got, z) runs, done)
        | inr nz ↦
            let f : ◌≡◌ {A = Option (ℕ × List ℕ)} (some (if x == b'\r' then b'\n' else x, input))
                (some (c, rest)) =
              rw nz at e in
            let g : (if x == b'\r' then b'\n' else x) ≡ c = cc in
            let i : input ≡ rest = cc in
            (
              (uart_getc dev d).1,
              elim (Bool-cases (x == b'\r')) [
                | inl ret ↦
                    let k : b'\n' ≡ c = rw ret at g in
                    rw (got, nz, ret) (ap (λ v. some (v, (uart_getc dev d).1)) k)
                | inr other ↦
                    let k : x ≡ c = rw other at g in
                    rw (got, nz, other) (ap (λ v. some (v, (uart_getc dev d).1)) k)
              ],
              left ∙ i,
            )
      ]
