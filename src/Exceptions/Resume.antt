-- ===== src/Exceptions/Resume.antt =====
-- What the handlers of src/exceptions/exceptions.c do with the saved registers.
use meringue_os.Prelude.{
  ℕ, zero, suc, ◌+◌, ◌*◌, ◌%◌, ◌^◌, ◌≤◌, ◌<◌, ◌≡◌, refl, true, false, ◌||◌, Option, none, some,
  ◌>>=◌, ◌==◌, ltb, if◌then◌else◌, List, [], ◌∷◌, ◌++◌, length, drop, arith, Bool-cases, inl, inr,
}
use meringue_os.Stdio.Calls.{Print, print}
use meringue_os.Exceptions.{
  Context, Outcome, returns, halts, row_format, reg_at, register_row, register_rows,
  print_registers, exception_class, handle_sync_exception,
}

-- The rows of the registers `rs`, the first of which is number `i`.
abbrev pub rows : ℕ → List ℕ → List Print
rows i [] = []
rows i (a ∷ []) = print row_format (i ∷ a ∷ (i + 1) ∷ 0 ∷ []) ∷ []
rows i (a ∷ b ∷ rs) = print row_format (i ∷ a ∷ (i + 1) ∷ b ∷ []) ∷ rows (i + 2) rs

drop-reg_at :
    (i : ℕ) (regs : List ℕ) (r : ℕ) (rs : List ℕ)
    → drop i regs ≡ r ∷ rs
    → (reg_at regs i ≡ some r) × (drop (suc i) regs ≡ rs)
drop-reg_at zero [] r rs e = absurd (cc)
drop-reg_at zero (x ∷ xs) r rs e = (cc, cc)
drop-reg_at (suc i) [] r rs e = absurd (cc)
drop-reg_at (suc i) (x ∷ xs) r rs e = drop-reg_at i xs r rs e

register_rows-end :
    (rounds : ℕ) (regs : List ℕ) (i : ℕ)
    → 31 ≤ i
    → 1 ≤ rounds
    → register_rows rounds regs i ≡ some []
unfolding register_rows
register_rows-end zero regs i h one = absurd (omega arith)
register_rows-end (suc rounds) regs i h one = let t : ltb i 31 ≡ false = ground arith in rw t refl

register_rows-rows :
    (rounds : ℕ) (regs : List ℕ) (i : ℕ) (rs : List ℕ)
    → drop i regs ≡ rs
    → i + length rs ≡ 31
    → length rs + 2 ≤ 2 * rounds
    → register_rows rounds regs i ≡ some (rows i rs)
unfolding register_rows register_row
register_rows-rows zero regs i rs at h enough = absurd (omega arith)
register_rows-rows (suc rounds) regs i [] at h enough =
    register_rows-end (suc rounds) regs i (omega arith) (omega arith)
register_rows-rows (suc rounds) regs i (a ∷ []) at h enough =
    let t : ltb i 31 ≡ true = ground arith in
    let u : ltb (i + 1) 31 ≡ false = ground arith in
    let (here, behind) = drop-reg_at i regs a [] at in
    let end : register_rows rounds regs (i + 2) ≡ some [] =
      register_rows-end rounds regs (i + 2) (omega arith) (omega arith) in
    rw (t, u, here, end) refl
register_rows-rows (suc rounds) regs i (a ∷ b ∷ rs) at h enough =
    let t : ltb i 31 ≡ true = ground arith in
    let u : ltb (i + 1) 31 ≡ true = ground arith in
    let (here, behind) = drop-reg_at i regs a (b ∷ rs) at in
    let one : suc i ≡ i + 1 = omega arith in
    let two : suc (i + 1) ≡ i + 2 = omega arith in
    let (next, far) = drop-reg_at (i + 1) regs b rs (rw one at behind) in
    rw
      (
        t,
        u,
        here,
        next,
        register_rows-rows rounds regs (i + 2) rs (rw two at far) (omega arith) (omega arith),
      )
      refl

pub print_registers-rows :
    (c : Context)
    → length c.regs ≡ 31
    → print_registers c
      ≡ some (
          print "Saved Registers:\n" [] ∷ rows 0 c.regs
          ++ print "  SPSR_EL1: %016llx\n" (c.spsr_el1 ∷ [])
            ∷ print "  ELR_EL1:  %016llx\n" (c.elr_el1 ∷ [])
            ∷ print "  SP_EL0:   %016llx\n" (c.sp_el0 ∷ [])
            ∷ [])
unfolding print_registers
print_registers-rows c h =
    rw (register_rows-rows 17 c.regs 0 c.regs refl (omega arith) (omega arith)) refl

-- The context that is restored, unless the kernel halts; and what is printed.
abbrev pub resumed : Outcome → Option Context
resumed (returns c prints) = some c
resumed (halts prints) = none

-- The fields of ESR_EL1: the exception class stands above 26 bits.
exception_class_bits :
    (high class low : ℕ)
    → class < 64
    → low < 2 ^ 26
    → exception_class (high * 2 ^ 32 + class * 2 ^ 26 + low) ≡ class
exception_class_bits high class low h k = omega arith

-- With 31 saved registers, `handle_sync_exception` reads none outside them. Where bits 31 to 26 of
-- ESR_EL1 are 60 (a BRK) or 21 (an SVC), it returns to the address 4 behind the one that was saved,
-- modulo 2 ^ 64, with every other register as it was; for any other class it halts.
pub handle_sync_exception_resumes :
    (high class low far : ℕ) (c : Context)
    → class < 64
    → low < 2 ^ 26
    → length c.regs ≡ 31
    → (handle_sync_exception (high * 2 ^ 32 + class * 2 ^ 26 + low) far c >>= λ o. some (resumed o))
      ≡ some (
          if class == 60 || class == 21
          then some (record {
            regs = c.regs;
            spsr_el1 = c.spsr_el1;
            elr_el1 = (c.elr_el1 + 4) % 2 ^ 64;
            sp_el0 = c.sp_el0;
          })
          else none)
unfolding handle_sync_exception
handle_sync_exception_resumes high class low far c h k full =
    let e = exception_class_bits high class low h k in
    elim (Bool-cases (class == 60)) [
      | inl brk ↦ rw (print_registers-rows c full, e, brk) refl
      | inr other ↦ elim (Bool-cases (class == 21)) [
        | inl svc ↦ rw (print_registers-rows c full, e, other, svc) refl
        | inr unknown ↦ rw (print_registers-rows c full, e, other, unknown) refl
      ]
    ]
