-- ===== src/Tests/Console.antt =====
-- The UART with a small PL011, and `boot_debug_copy` on it.
use meringue_os.Prelude.{
  ℕ, ◌+◌, ◌-◌, ◌%◌, ◌≡◌, refl, ap, ◌∙◌, false, true, Bool, some, ◌==◌, if◌then◌else◌, min, List, [],
  ◌∷◌, ◌++◌, arith, bit_and, codes,
}
use meringue_os.Memory.{Mem, IsBytes, within}
use meringue_os.Uart.{Device, uart_dr, uart_fr, rxfe, txff, send_text, kgetc_blocking}
use meringue_os.Uart.Pl011.{IsPl011}
use meringue_os.Uart.Sent.{wire, send_text-wire}
use meringue_os.Uart.Received.{kgetc_blocking-next}
use meringue_os.Kernel.{BootText, size_room, boot_debug_copy}
use meringue_os.Kernel.Size.{shown_size}
use meringue_os.Kernel.Copy.{boot_debug_copy-shown_size}
use meringue_os.Tests.Store.{texts_at, texts_at-IsBytes, is_string_sound}

-- Characters sent, characters received, and the reads of the flags until there is space, 2 at most.
record Chip : Type 0 where
  out : List ℕ
  into : List ℕ
  busy : ℕ

abbrev bytes : List ℕ → List ℕ
bytes [] = []
bytes (c ∷ cs) = (c % 256) ∷ bytes cs

abbrev behind : List ℕ → List ℕ
behind [] = []
behind (c ∷ cs) = cs

abbrev head : List ℕ → ℕ
head [] = 0
head (c ∷ cs) = c

abbrev no_input : List ℕ → Bool
no_input [] = true
no_input (c ∷ cs) = false

abbrev flags : Bool → Bool → ℕ
flags true true = rxfe
flags true false = rxfe + txff
flags false true = 0
flags false false = txff

abbrev pl011 : Device Chip
pl011 = record { read = read; write = write }
  where
    read : ℕ → Chip → ℕ × Chip
    read a d =
        if a == uart_fr
        then (flags (no_input d.into) (min d.busy 2 == 0), record d { busy = min d.busy 2 - 1 })
        else if a == uart_dr
        then (head d.into, record d { into = behind d.into })
        else (0, d)

    write : ℕ → ℕ → Chip → Chip
    write a v d = if a == uart_dr then record d { out = d.out ++ (v % 256) ∷ []; busy = 2 } else d

full_flag : (e f : Bool) → (bit_and (flags e f) txff == 0) ≡ f
full_flag true true = refl
full_flag true false = refl
full_flag false true = refl
full_flag false false = refl

empty_flag : (e f : Bool) → (bit_and (flags e f) rxfe == 0) ≡ (if e then false else true)
empty_flag true true = refl
empty_flag true false = refl
empty_flag false true = refl
empty_flag false false = refl

nothing : (cs : List ℕ) → bytes cs ≡ [] → no_input cs ≡ true
nothing [] e = refl
nothing (c ∷ cs) e = absurd (cc)

something : (xs : List ℕ) (c : ℕ) (cs : List ℕ) → bytes xs ≡ c ∷ cs → no_input xs ≡ false
something [] c cs e = absurd (cc)
something (x ∷ xs) c cs e = refl

next :
    (xs : List ℕ) (c : ℕ) (cs : List ℕ)
    → bytes xs ≡ c ∷ cs
    → (head xs % 256 ≡ c) × (bytes (behind xs) ≡ cs)
next [] c cs e = absurd (cc)
next (x ∷ xs) c cs e = (cc, cc)

pl011-IsPl011 : IsPl011 pl011
pl011-IsPl011 = record {
  sent = λ d. d.out;
  wait = λ d. min d.busy 2;
  patience = 2;
  pending = λ d. bytes d.into;
  full = λ d. full_flag (no_input d.into) (min d.busy 2 == 0);
  empty = λ d e.
      empty_flag (no_input d.into) (min d.busy 2 == 0)
      ∙ ap (λ b. if b then false else true) (nothing d.into e);
  ready = λ d c cs e.
      empty_flag (no_input d.into) (min d.busy 2 == 0)
      ∙ ap (λ b. if b then false else true) (something d.into c cs e);
  fr_sent = λ d. refl;
  fr_wait = λ d. omega arith;
  fr_pending = λ d. refl;
  patient = λ d. omega arith;
  dr_sent = λ d c e. refl;
  dr_value = λ d c cs e. (next d.into c cs e).0;
  dr_pending = λ d c cs e. (next d.into c cs e).1;
}

abbrev chip : Chip
chip = record { out = []; into = 0 ∷ 256 ∷ b'\r' ∷ b'a' ∷ []; busy = 7 }

send_text-wire_example :
    (d' : Chip) × (send_text pl011 5 (codes "ok\n") chip ≡ some d')
    × (d'.out ≡ [] ++ wire (codes "ok\n"))
unfolding pl011-IsPl011
send_text-wire_example = send_text-wire pl011 pl011-IsPl011 5 (codes "ok\n") chip (omega arith)

kgetc_blocking-next_example :
    (d' : Chip) × (kgetc_blocking pl011 5 chip ≡ some (b'\n', d')) × (bytes d'.into ≡ b'a' ∷ [])
unfolding pl011-IsPl011
kgetc_blocking-next_example =
    kgetc_blocking-next pl011 pl011-IsPl011 5 chip (0 ∷ 0 ∷ b'\r' ∷ b'a' ∷ []) b'\n' (b'a' ∷ [])
      refl refl (omega arith)

abbrev boot_text : BootText
boot_text = record { head = 100; size_str = 200; tail = 300 }

abbrev memory : Mem
memory = texts_at ((100, codes "[BOOT] Copying section: ") ∷ (300, codes " bytes\n") ∷ [])

memory-IsBytes : IsBytes memory
memory-IsBytes =
    texts_at-IsBytes ((100, codes "[BOOT] Copying section: ") ∷ (300, codes " bytes\n") ∷ [])
      (omega arith)

boot_debug_copy-shown_size_example :
    (m' : Mem) × (d' : Chip) × (boot_debug_copy pl011 5 boot_text 40 4096 memory chip
      ≡ some (m', d'))
    × (d'.out ≡ [] ++ (codes "[BOOT] Copying section: " ++ (shown_size 4096 ++ codes " bytes\n")))
    × ((a : ℕ) → within 200 size_room a ≡ false → m' a ≡ memory a)
unfolding pl011-IsPl011
boot_debug_copy-shown_size_example =
    boot_debug_copy-shown_size pl011 pl011-IsPl011 5 (omega arith) boot_text 40 4096 memory chip
      (codes "[BOOT] Copying section: ") (codes " bytes\n") memory-IsBytes
      (is_string_sound memory 100 (codes "[BOOT] Copying section: ") refl)
      (is_string_sound memory 300 (codes " bytes\n") refl) (λ a w. ground arith) (omega arith)
      (omega arith) (omega arith)
