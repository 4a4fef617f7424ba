-- ===== src/Exceptions.antt =====
-- src/exceptions/exceptions.c. The system registers are read at the start of a handler; their values
-- are arguments. A handler makes a list of calls of `kprintf`, in order, and returns with the context
-- that `restore_context` loads, or halts in `panic`. `none` is a read outside the saved registers,
-- or a loop that did not end.
pub mod Resume
pub mod Shown
pub mod Report
use meringue_os.Stdio.Calls.{Print, print, print_string}
use meringue_os.Prelude.{
  ℕ, zero, suc, ◌+◌, ◌/◌, ◌%◌, ◌^◌, Bool, true, false, Option, none, some, ◌>>=◌, ◌==◌, ltb,
  if◌then◌else◌, List, [], ◌∷◌, ◌++◌, String, add64,
}

-- saved_registers_t.
pub record Context : Type 0 where
  pub regs : List ℕ
  pub spsr_el1 : ℕ
  pub elr_el1 : ℕ
  pub sp_el0 : ℕ

pub data Outcome : Type 0 where
  returns : Context → List Print → Outcome
  halts : List Print → Outcome

unfoldable pub panic : String → List Print
panic message = print_string "\nKERNEL PANIC: %s\n" message ∷ print "System halted.\n" [] ∷ []

abbrev pub reg_at : List ℕ → ℕ → Option ℕ
reg_at [] i = none
reg_at (r ∷ rs) zero = some r
reg_at (r ∷ rs) (suc i) = reg_at rs i

abbrev pub row_format : String
row_format = "  x%-2d: %016llx   x%-2d: %016llx\n"

-- One round of the loop of `print_registers`.
unfoldable pub register_row : List ℕ → ℕ → Option Print
register_row regs i =
    let second = if ltb (i + 1) 31 then reg_at regs (i + 1) else some 0 in
    reg_at regs i >>= λ a. second >>= λ b. some (print row_format (i ∷ a ∷ (i + 1) ∷ b ∷ []))

-- for (int i = 0; i < 31; i += 2), with `none` where `rounds` are too few.
unfoldable pub register_rows : ℕ → List ℕ → ℕ → Option (List Print)
register_rows zero regs i = none
register_rows (suc rounds) regs i =
    let rest = register_rows rounds regs (i + 2) in
    if ltb i 31 then (register_row regs i >>= λ p. rest >>= λ ps. some (p ∷ ps)) else some []

unfoldable pub print_registers : Context → Option (List Print)
print_registers c = register_rows 17 c.regs 0 >>= λ rows. some (
    print "Saved Registers:\n" [] ∷ rows
    ++ print "  SPSR_EL1: %016llx\n" (c.spsr_el1 ∷ [])
      ∷ print "  ELR_EL1:  %016llx\n" (c.elr_el1 ∷ [])
      ∷ print "  SP_EL0:   %016llx\n" (c.sp_el0 ∷ [])
      ∷ [])

-- The cases of the `switch`: the exception class, its text, and whether FAR_EL1 is valid.
abbrev pub classes : List (ℕ × String × Bool)
classes =
    (0b000000, "Unknown reason", false)
    ∷ (0b000001, "Trapped WFI or WFE", false)
    ∷ (0b001110, "Illegal Execution State", false)
    ∷ (0b010001, "SVC instruction execution in AArch32 state", false)
    ∷ (0b010101, "SVC instruction execution in AArch64 state", false)
    ∷ (0b011000, "Trapped MSR, MRS or System instruction execution in AArch64 state", false)
    ∷ (0b011001, "Access to SVE functionality trapped", false)
    ∷ (0b100000, "Instruction Abort from a lower Exception level (AArch32)", true)
    ∷ (0b100001, "Instruction Abort from a lower Exception level (AArch64)", true)
    ∷ (0b100010, "PC alignment fault exception", false)
    ∷ (0b100100, "Data Abort from a lower Exception level (AArch32)", true)
    ∷ (0b100101, "Data Abort from a lower Exception level (AArch64)", true)
    ∷ (0b100110, "SP alignment fault exception", false)
    ∷ (0b101000, "Trapped floating-point exception (AArch32)", false)
    ∷ (0b101100, "Trapped floating-point exception (AArch64)", false)
    ∷ (0b110000, "SError interrupt", false)
    ∷ (0b110001, "Breakpoint exception from a lower Exception level (AArch32)", false)
    ∷ (0b110010, "Breakpoint exception from a lower Exception level (AArch64)", false)
    ∷ (0b110100, "Step exception from a lower Exception level (AArch32)", false)
    ∷ (0b110101, "Step exception from a lower Exception level (AArch64)", false)
    ∷ (0b111000, "Watchpoint exception from a lower Exception level (AArch32)", false)
    ∷ (0b111001, "Watchpoint exception from a lower Exception level (AArch64)", false)
    ∷ (0b111100, "BRK instruction execution in AArch64 state", false)
    ∷ (0b100011, "Instruction Abort from current EL", true)
    ∷ (0b100111, "Data Abort from current EL", true)
    ∷ []

abbrev pub describe : List (ℕ × String × Bool) → ℕ → String × Bool
describe [] ec = ("Unhandled Exception Class", false)
describe ((class, text, far_valid) ∷ rest) ec =
    if ec == class then (text, far_valid) else describe rest ec

-- Bits 31:26 and 24:0 of ESR_EL1.
abbrev pub exception_class : ℕ → ℕ
exception_class esr = esr / 2 ^ 26 % 2 ^ 6

abbrev pub syndrome : ℕ → ℕ
syndrome esr = esr % 2 ^ 25

abbrev pub brk_class : ℕ
brk_class = 0b111100

abbrev pub svc_class : ℕ
svc_class = 0b010101

-- The format of the line on ESR_EL1, and the lines on the exception before the registers.
abbrev pub esr_format : String
esr_format = " ESR_EL1: %016llx (EC: 0x%x, ISS: 0x%x)\n"

unfoldable pub report_lines : String → Bool → ℕ → ℕ → ℕ → List Print
report_lines text far_valid esr far elr =
    print "\n--- Synchronous Exception Taken ---\n" []
    ∷ print esr_format (esr ∷ exception_class esr ∷ syndrome esr ∷ [])
    ∷ print " ELR_EL1: %016llx (Return Address)\n" (elr ∷ [])
    ∷ print_string " Type: %s\n" text
    ∷ (if far_valid
        then print " FAR_EL1: %016llx (Faulting Virtual Address)\n" (far ∷ []) ∷ []
        else [])

unfoldable pub report : ℕ → ℕ → ℕ → List Print
report esr far elr =
    let (text, far_valid) = describe classes (exception_class esr) in
    report_lines text far_valid esr far elr

-- context->elr_el1 += 4;
abbrev pub skip_instruction : Context → Context
skip_instruction c = record {
  regs = c.regs;
  spsr_el1 = c.spsr_el1;
  elr_el1 = add64 c.elr_el1 4;
  sp_el0 = c.sp_el0;
}

unfoldable pub handle_sync_exception : ℕ → ℕ → Context → Option Outcome
handle_sync_exception esr far c = print_registers c >>= λ registers.
    let shown =
      report esr far c.elr_el1
      ++ registers
      ++ print "-------------------------------------\n" [] ∷ [] in
    let imm = syndrome esr % 2 ^ 16 in
    some (
      if exception_class esr == brk_class
      then returns (skip_instruction c)
          (shown ++ print "BRK instruction encountered. Continuing execution.\n" [] ∷ [])
      else if exception_class esr == svc_class
      then returns (skip_instruction c) (
          shown
          ++ print "SVC instruction encountered (Imm: 0x%x). Implement SVC handler.\n" (imm ∷ [])
            ∷ [])
      else halts (shown ++ panic "Unhandled synchronous exception"))

unfoldable pub handle_irq : Context → Option Outcome
handle_irq c = print_registers c >>= λ registers. some (
    returns c (
      print "\n--- IRQ Received ---\n" []
        ∷ print " (No GIC driver implemented yet)\n" []
        ∷ registers
      ++ print "--------------------\n" [] ∷ []))

unfoldable pub handle_fiq : Context → Option Outcome
handle_fiq c = print_registers c >>= λ registers. some (
    halts (print "\n--- FIQ Received ---\n" [] ∷ registers ++ panic "FIQ handling not implemented"))

unfoldable pub handle_serror : ℕ → Context → Option Outcome
handle_serror esr c = print_registers c >>= λ registers. some (
    halts (
      print "\n--- SError Received ---\n" [] ∷ print " ESR_EL1: %016llx\n" (esr ∷ []) ∷ registers
      ++ panic "SError handling not implemented"))
