-- ===== src/Tests/Exceptions.antt =====
-- The exception handlers on one context.
use meringue_os.Prelude.{ℕ, ◌+◌, ◌*◌, ◌^◌, ◌≡◌, refl, some, ◌>>=◌, [], ◌∷◌, arith}
use meringue_os.Memory.{Mem}
use meringue_os.Stdio.Calls.{all_sent}
use meringue_os.Exceptions.{
  Context, classes, describe, exception_class, report, print_registers, handle_sync_exception,
}
use meringue_os.Exceptions.Resume.{resumed, handle_sync_exception_resumes}
use meringue_os.Exceptions.Shown.{
  formats_of_registers, registers_text, print_registers-registers_text,
}
use meringue_os.Exceptions.Report.{report_formats, report_text, report-report_text}
use meringue_os.Tests.Store.{texts_at, place, placed, are_placed_sound}

abbrev context : Context
context = record {
  regs =
      0 ∷ 1 ∷ 2 ∷ 3 ∷ 4 ∷ 5 ∷ 6 ∷ 7 ∷ 8 ∷ 9 ∷ 10 ∷ 11 ∷ 12 ∷ 13 ∷ 14 ∷ 15 ∷ 16 ∷ 17 ∷ 18 ∷ 19 ∷ 20
      ∷ 21 ∷ 22 ∷ 23 ∷ 24 ∷ 25 ∷ 26 ∷ 27 ∷ 28 ∷ 29 ∷ 30 ∷ [];
  spsr_el1 = 0x3c5;
  elr_el1 = 0x4008_0000;
  sp_el0 = 0;
}

-- ESR_EL1 of a BRK instruction.
abbrev brk : ℕ
brk = 0xf200_0001

handle_sync_exception_resumes_example :
    (handle_sync_exception (0 * 2 ^ 32 + 60 * 2 ^ 26 + 0x200_0001) 0 context >>= λ o.
    some (resumed o))
    ≡ some
        (some (record { regs = context.regs; spsr_el1 = 0x3c5; elr_el1 = 0x4008_0004; sp_el0 = 0 }))
handle_sync_exception_resumes_example =
    handle_sync_exception_resumes 0 60 0x200_0001 0 context (omega arith) (omega arith) refl

abbrev register_memory : Mem
register_memory = texts_at (placed formats_of_registers)

print_registers-registers_text_example :
    (print_registers context >>= λ ps. all_sent 60 register_memory place ps) ≡ some registers_text
print_registers-registers_text_example =
    print_registers-registers_text 60 register_memory place context refl
      (are_placed_sound register_memory formats_of_registers refl) (omega arith)

abbrev report_memory : Mem
report_memory = texts_at (placed ((describe classes (exception_class brk)).0 ∷ report_formats))

report-report_text_example :
    all_sent 300 report_memory place (report brk 0 0x4008_0000)
    ≡ some (
        report_text
          (describe classes (exception_class brk)).0
          (describe classes (exception_class brk)).1
          brk)
report-report_text_example =
    report-report_text 300 report_memory place brk 0 0x4008_0000
      (are_placed_sound report_memory ((describe classes (exception_class brk)).0 ∷ report_formats)
        refl)
      (omega arith) (omega arith)
