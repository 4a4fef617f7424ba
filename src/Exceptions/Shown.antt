-- ===== src/Exceptions/Shown.antt =====
-- What `kprintf` of src/lib/stdio.c makes of the formats of src/exceptions/exceptions.c.
use meringue_os.Prelude.{
  ℕ, zero, suc, ◌+◌, ◌*◌, ◌<◌, ◌≡◌, refl, some, ◌>>=◌, List, [], ◌∷◌, ◌++◌, length, arith, String,
  codes,
}
use mathlib.Core.List.{append_assoc}
use meringue_os.Memory.{Mem}
use meringue_os.Strings.Walks.{IsString}
use meringue_os.Stdio.Calls.{Print, print, sent, all_sent, Placed, unread, sent-texts, raw_sent}
use meringue_os.Exceptions.{Context, row_format, print_registers}
use meringue_os.Exceptions.Resume.{rows, print_registers-rows}

row_sent :
    (fuel : ℕ) (m : Mem) (at : String → ℕ) (args : List ℕ)
    → IsString m (at row_format) (codes row_format)
    → 50 < fuel
    → sent fuel m at (print row_format args) ≡ some (codes row_format)
row_sent fuel m at args s enough =
    sent-texts fuel m at row_format (unread (codes row_format)) args s refl refl (omega arith)
      (omega arith)

-- The texts of the lines, each of which is its format.
abbrev pub formats_of_registers : List String
formats_of_registers =
    "Saved Registers:\n" ∷ row_format ∷ "  SPSR_EL1: %016llx\n" ∷ "  ELR_EL1:  %016llx\n"
    ∷ "  SP_EL0:   %016llx\n" ∷ []

abbrev times : ℕ → List ℕ → List ℕ
times zero text = []
times (suc n) text = text ++ times n text

abbrev pub registers_text : List ℕ
registers_text =
    codes "Saved Registers:\n"
    ++ times 16 (codes row_format)
    ++ codes "  SPSR_EL1: %016llx\n"
    ++ codes "  ELR_EL1:  %016llx\n"
    ++ codes "  SP_EL0:   %016llx\n"

rows_sent :
    (fuel : ℕ) (m : Mem) (at : String → ℕ) (n i : ℕ) (rs : List ℕ) (ps : List Print) (text : List ℕ)
    → IsString m (at row_format) (codes row_format)
    → 50 < fuel
    → 2 * n ≡ length rs + 1
    → all_sent fuel m at ps ≡ some text
    → all_sent fuel m at (rows i rs ++ ps) ≡ some (times n (codes row_format) ++ text)
unfolding all_sent
rows_sent fuel m at zero i rs ps text s enough h behind = absurd (omega arith)
rows_sent fuel m at (suc n) i [] ps text s enough h behind = absurd (omega arith)
rows_sent fuel m at (suc zero) i (a ∷ []) ps text s enough h behind =
    rw (row_sent fuel m at (i ∷ a ∷ (i + 1) ∷ 0 ∷ []) s enough, behind) refl
rows_sent fuel m at (suc (suc n)) i (a ∷ []) ps text s enough h behind = absurd (omega arith)
rows_sent fuel m at (suc n) i (a ∷ b ∷ rs) ps text s enough h behind =
    rw
      (
        row_sent fuel m at (i ∷ a ∷ (i + 1) ∷ b ∷ []) s enough,
        rows_sent fuel m at n (i + 2) rs ps text s enough (omega arith) behind,
        append_assoc (codes row_format) (times n (codes row_format)) text,
      )
      refl

-- With 31 saved registers, the five formats in memory and fuel above 50, `print_registers` and `kprintf` together
-- send the formats as they stand, whatever the registers hold: `%-2d` and `%016llx` are no conversions
-- of `kprintf`, so that no value is shown.
pub print_registers-registers_text :
    (fuel : ℕ) (m : Mem) (at : String → ℕ) (c : Context)
    → length c.regs ≡ 31
    → Placed m at formats_of_registers
    → 50 < fuel
    → (print_registers c >>= λ ps. all_sent fuel m at ps) ≡ some registers_text
unfolding all_sent
print_registers-registers_text fuel m at c h (head, (row, (spsr, (elr, (sp, end))))) enough =
    let a =
      raw_sent fuel m at "Saved Registers:\n" [] head refl refl refl (omega arith, omega arith) in
    let b =
      raw_sent fuel m at "  SPSR_EL1: %016llx\n" (c.spsr_el1 ∷ []) spsr refl refl refl
        (omega arith, omega arith) in
    let d =
      raw_sent fuel m at "  ELR_EL1:  %016llx\n" (c.elr_el1 ∷ []) elr refl refl refl
        (omega arith, omega arith) in
    let e =
      raw_sent fuel m at "  SP_EL0:   %016llx\n" (c.sp_el0 ∷ []) sp refl refl refl
        (omega arith, omega arith) in
    let rest =
      rows_sent fuel m at 16 0 c.regs
        (print "  SPSR_EL1: %016llx\n" (c.spsr_el1 ∷ [])
          ∷ print "  ELR_EL1:  %016llx\n" (c.elr_el1 ∷ [])
          ∷ print "  SP_EL0:   %016llx\n" (c.sp_el0 ∷ [])
          ∷ [])
        _ row enough (omega (arith, h)) (rw (b, d, e) refl) in
    rw (print_registers-rows c h, a, rest) refl
