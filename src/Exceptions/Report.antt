-- ===== src/Exceptions/Report.antt =====
-- The lines of `handle_sync_exception` (src/exceptions/exceptions.c) on the exception, as `kprintf`
-- sends them.
use meringue_os.Prelude.{
  ℕ, ◌+◌, ◌%◌, ◌^◌, ◌≤◌, ◌<◌, ◌≡◌, ◌≢◌, refl, ap, ◌∙◌, Bool, true, false, some, ◌==◌, if◌then◌else◌,
  List, [], ◌∷◌, ◌++◌, length, length-append, All, All-append, arith, Bool-cases, inl, inr, String,
  codes,
}
use meringue_os.Memory.{Mem}
use meringue_os.Strings.Walks.{IsString}
use meringue_os.Stdio.{number_room}
use meringue_os.Stdio.Numerals.{numeral, places, digits_full}
use meringue_os.Stdio.Pieces.{Piece, string, short_hex, literal, IsPiece}
use meringue_os.Stdio.Render.{kprintf-texts}
use meringue_os.Exceptions.{
  esr_format, classes, describe, exception_class, syndrome, report_lines, report,
}
use meringue_os.Stdio.Calls.{
  print, print_string, sent, all_sent, Placed, unread, sent-texts, raw_sent, until_nul_full,
  numeral-le,
}

-- The line on ESR_EL1.
abbrev esr_pieces : ℕ → ℕ → List Piece
esr_pieces a b =
    unread (codes " ESR_EL1: %016llx (EC: 0x")
    ++ (short_hex a ∷ (unread (codes ", ISS: 0x") ++ (short_hex b ∷ unread (codes ")\n"))))

abbrev esr_text : ℕ → ℕ → List ℕ
esr_text a b =
    codes " ESR_EL1: %016llx (EC: 0x"
    ++ (numeral false 16 (a % 2 ^ 32)
        ++ (codes ", ISS: 0x" ++ (numeral false 16 (b % 2 ^ 32) ++ codes ")\n")))

esr_text_full : (a b : ℕ) → All (λ c. c ≢ 0) (esr_text a b)
esr_text_full a b =
    All-append (λ c. c ≢ 0) (codes " ESR_EL1: %016llx (EC: 0x") _ (omega arith)
      (All-append (λ c. c ≢ 0) (numeral false 16 (a % 2 ^ 32)) _
        (digits_full false (places 16 number_room (a % 2 ^ 32)))
        (All-append (λ c. c ≢ 0) (codes ", ISS: 0x") _ (omega arith)
          (All-append (λ c. c ≢ 0) (numeral false 16 (b % 2 ^ 32)) (codes ")\n")
            (digits_full false (places 16 number_room (b % 2 ^ 32))) (omega arith))))

esr_sent :
    (fuel : ℕ) (m : Mem) (at : String → ℕ) (a b d : ℕ)
    → IsString m (at esr_format) (codes esr_format)
    → 60 < fuel
    → sent fuel m at (print esr_format (a ∷ b ∷ d ∷ [])) ≡ some (esr_text a b)
esr_sent fuel m at a b d s enough =
    let n = numeral-le (a % 2 ^ 32) in
    let n' = numeral-le (b % 2 ^ 32) in
    let l =
      length-append (numeral false 16 (a % 2 ^ 32))
        (codes ", ISS: 0x" ++ (numeral false 16 (b % 2 ^ 32) ++ codes ")\n")) in
    let l' = length-append (numeral false 16 (b % 2 ^ 32)) (codes ")\n") in
    sent-texts fuel m at esr_format (esr_pieces a b) (d ∷ []) s refl refl
      (omega (arith, n, n', l, l')) (omega arith)
    ∙ ap some (until_nul_full (esr_text a b) (esr_text_full a b))

IsString-full : (m : Mem) (p : ℕ) (cs : List ℕ) → IsString m p cs → All (λ c. c ≢ 0) cs
IsString-full m p [] s = tt
IsString-full m p (c ∷ cs) s = (s.1, IsString-full m (p + 1) cs s.2)

-- The line on the class.
type_sent :
    (fuel : ℕ) (m : Mem) (at : String → ℕ) (text : String)
    → IsString m (at " Type: %s\n") (codes " Type: %s\n")
    → IsString m (at text) (codes text)
    → at text ≢ 0
    → length (codes text) ≤ 100
    → 200 < fuel
    → sent fuel m at (print_string " Type: %s\n" text)
      ≡ some (codes " Type: " ++ (codes text ++ codes "\n"))
unfolding sent
type_sent fuel m at text s t ne short enough =
    let xs : List Piece =
      unread (codes " Type: ") ++ (string (at text) (codes text) ∷ literal b'\n' ∷ []) in
    let pieces : All (IsPiece m 100) xs =
      All-append (IsPiece m 100) (unread (codes " Type: "))
        (string (at text) (codes text) ∷ literal b'\n' ∷ []) (omega arith)
        ((ne, t, short), ((omega arith, omega arith), tt)) in
    let line =
      kprintf-texts fuel m (at " Type: %s\n") 100 xs [] pieces s
        (omega (arith, length-append (codes text) (codes "\n"))) (omega arith) in
    let full =
      All-append (λ c. c ≢ 0) (codes " Type: ") (codes text ++ codes "\n") (omega arith)
        (All-append (λ c. c ≢ 0) (codes text) (codes "\n")
          (IsString-full m (at text) (codes text) t) (omega arith)) in
    rw line (ap some (until_nul_full _ full))

-- What is sent of the lines on an exception.
unfoldable pub report_text : String → Bool → ℕ → List ℕ
report_text text far_valid esr =
    codes "\n--- Synchronous Exception Taken ---\n"
    ++ (esr_text esr (exception_class esr)
        ++ (codes " ELR_EL1: %016llx (Return Address)\n"
            ++ ((codes " Type: " ++ (codes text ++ codes "\n"))
                ++ (if far_valid
                    then codes " FAR_EL1: %016llx (Faulting Virtual Address)\n"
                    else []))))

abbrev pub report_formats : List String
report_formats =
    "\n--- Synchronous Exception Taken ---\n" ∷ esr_format ∷ " ELR_EL1: %016llx (Return Address)\n"
    ∷ " Type: %s\n" ∷ " FAR_EL1: %016llx (Faulting Virtual Address)\n" ∷ []

module _ (fuel : ℕ) (m : Mem) (at : String → ℕ) (placed : Placed m at report_formats)
    (enough : 200 < fuel) where
  far_sent :
      (far_valid : Bool) (far : ℕ)
      → all_sent fuel m at (
          if far_valid
          then print " FAR_EL1: %016llx (Faulting Virtual Address)\n" (far ∷ []) ∷ []
          else [])
        ≡ some (if far_valid then codes " FAR_EL1: %016llx (Faulting Virtual Address)\n" else [])
  unfolding all_sent
  far_sent false far = refl
  far_sent true far =
      let line =
        raw_sent fuel m at " FAR_EL1: %016llx (Faulting Virtual Address)\n" (far ∷ [])
          placed.1.1.1.1.0 refl refl refl (omega arith, omega arith) in
      rw line refl

  report_lines_sent :
      (text : String) (far_valid : Bool) (esr far elr : ℕ)
      → IsString m (at text) (codes text)
      → at text ≢ 0
      → length (codes text) ≤ 100
      → all_sent fuel m at (report_lines text far_valid esr far elr)
        ≡ some (report_text text far_valid esr)
  unfolding all_sent report_lines report_text
  report_lines_sent text far_valid esr far elr s ne short =
      let (taken, (esr_line, (elr_line, (type_line, others)))) = placed in
      let a =
        raw_sent fuel m at "\n--- Synchronous Exception Taken ---\n" [] taken refl refl refl
          (omega arith, omega arith) in
      let b = esr_sent fuel m at esr (exception_class esr) (syndrome esr) esr_line (omega arith) in
      let c =
        raw_sent fuel m at " ELR_EL1: %016llx (Return Address)\n" (elr ∷ []) elr_line refl refl refl
          (omega arith, omega arith) in
      let d = type_sent fuel m at text type_line s ne short enough in
      rw (a, b, c, d, far_sent far_valid far) refl

describe-le :
    (bound : ℕ) (table : List (ℕ × String × Bool)) (ec : ℕ)
    → All (λ entry. length (codes entry.1) ≤ bound) table
    → 30 ≤ bound
    → length (codes (describe table ec).0) ≤ bound
describe-le bound [] ec h some_room = omega arith
describe-le bound ((class, text, far_valid) ∷ table) ec (here, h) some_room =
    elim (Bool-cases (ec == class)) [
      | inl y ↦ rw y here
      | inr n ↦ rw n (describe-le bound table ec h some_room)
    ]

-- With the formats and the text of the exception class in memory, that text not at NULL, and fuel above
-- 200, the lines on an exception are sent so that the low 32 bits of ESR_EL1 stand behind `EC: 0x` and
-- the exception class behind `ISS: 0x`; the class is named as the table of classes says, and no address
-- is shown.
pub report-report_text :
    (fuel : ℕ) (m : Mem) (at : String → ℕ) (esr far elr : ℕ)
    → Placed m at ((describe classes (exception_class esr)).0 ∷ report_formats)
    → at (describe classes (exception_class esr)).0 ≢ 0
    → 200 < fuel
    → all_sent fuel m at (report esr far elr)
      ≡ some (
          report_text
            (describe classes (exception_class esr)).0
            (describe classes (exception_class esr)).1
            esr)
unfolding report
report-report_text fuel m at esr far elr (s, placed) ne enough =
    report_lines_sent fuel m at placed enough (describe classes (exception_class esr)).0
      (describe classes (exception_class esr)).1 esr far elr s ne
      (describe-le 100 classes (exception_class esr) (omega arith) (omega arith))
