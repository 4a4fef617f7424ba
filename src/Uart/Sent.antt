-- ===== src/Uart/Sent.antt =====
-- What src/lib/uart.c sends.
use meringue_os.Prelude.{
  ℕ, zero, suc, ◌%◌, ◌<◌, ◌≡◌, refl, ap, sym, ◌∙◌, some, ◌==◌, if◌then◌else◌, List, [], ◌∷◌, ◌++◌,
  arith, Bool-cases, inl, inr,
}
use mathlib.Core.List.{append-nil, append_assoc}
use meringue_os.Uart.{Device, uart_dr, uart_fr, wait_for_space, send_char, uart_putc, send_text}
use meringue_os.Uart.Pl011.{IsPl011}

-- A line feed is followed by a carriage return.
abbrev pub on_wire : ℕ → List ℕ
on_wire c = (c % 256) ∷ (if c == b'\n' then b'\r' ∷ [] else [])

abbrev pub wire : List ℕ → List ℕ
wire [] = []
wire (c ∷ cs) = if c == 0 then [] else on_wire c ++ wire cs

module _ {D : Type 0} (dev : Device D) (p : IsPl011 dev) where
  waits :
      (fuel : ℕ) (d : D)
      → p.wait d < fuel
      → (d' : D) × (wait_for_space dev fuel d ≡ some d') × (p.sent d' ≡ p.sent d) × (p.wait d' ≡ 0)
  unfolding wait_for_space
  waits zero d h = absurd (omega arith)
  waits (suc fuel) d h =
      let flag = p.full d in
      let next = p.fr_wait d in
      elim (Bool-cases (p.wait d == 0)) [
        | inl z ↦ ((dev.read uart_fr d).1, rw (flag, z) refl, p.fr_sent d, ground (arith, next))
        | inr nz ↦
            let (d', runs, same, free) = waits fuel (dev.read uart_fr d).1 (ground (arith, next)) in
            (d', rw (flag, nz) runs, same ∙ p.fr_sent d, free)
      ]

  pub sends :
      (fuel c : ℕ) (d : D)
      → p.patience < fuel
      → (d' : D) × (send_char dev fuel c d ≡ some d') × (p.sent d' ≡ p.sent d ++ (c % 256) ∷ [])
  unfolding send_char
  sends fuel c d h =
      let (d1, runs, same, free) = waits fuel d (omega (arith, p.patient d)) in
      (
        dev.write uart_dr c d1,
        rw runs refl,
        p.dr_sent d1 c free ∙ ap (λ s. s ++ (c % 256) ∷ []) same,
      )

  uart_putc-sent :
      (fuel c : ℕ) (d : D)
      → p.patience < fuel
      → (d' : D) × (uart_putc dev fuel c d ≡ some d') × (p.sent d' ≡ p.sent d ++ on_wire c)
  unfolding uart_putc
  uart_putc-sent fuel c d h =
      let (d1, runs, one) = sends fuel c d h in
      elim (Bool-cases (c == b'\n')) [
        | inr other ↦ (d1, rw (runs, other) refl, rw other one)
        | inl line ↦
            let (d2, more, two) = sends fuel b'\r' d1 h in
            (
              d2,
              rw (runs, line) more,
              rw line (
                  two
                  ∙ ap (λ s. s ++ b'\r' ∷ []) one
                  ∙ append_assoc (p.sent d) ((c % 256) ∷ []) (b'\r' ∷ [])),
            )
      ]

  -- On a PL011, with fuel above the number of reads in which it makes space, what `kprintf` has in its
  -- buffer is sent up to the first NUL, each character once and in order, and a carriage return after
  -- each line feed.
  pub send_text-wire :
      (fuel : ℕ) (text : List ℕ) (d : D)
      → p.patience < fuel
      → (d' : D) × (send_text dev fuel text d ≡ some d') × (p.sent d' ≡ p.sent d ++ wire text)
  unfolding send_text
  send_text-wire fuel [] d h = (d, refl, sym (append-nil (p.sent d)))
  send_text-wire fuel (c ∷ cs) d h = elim (Bool-cases (c == 0)) [
    | inl z ↦ (d, rw z refl, rw z (sym (append-nil (p.sent d))))
    | inr nz ↦
        let (d1, runs, one) = uart_putc-sent fuel c d h in
        let (d2, more, two) = send_text-wire fuel cs d1 h in
        (
          d2,
          rw (nz, runs) more,
          rw nz (two ∙ ap (λ s. s ++ wire cs) one ∙ append_assoc (p.sent d) (on_wire c) (wire cs)),
        )
  ]
