-- ===== src/Kernel/Copy.antt =====
-- What `boot_debug_copy` of src/boot/kernel.c shows.
use meringue_os.Prelude.{
  ℕ, zero, suc, ◌+◌, ◌%◌, ◌<◌, ◌≡◌, refl, ap, sym, ◌∙◌, true, false, some, ◌==◌, List, [], ◌∷◌,
  ◌++◌, length, arith,
}
use meringue_os.Memory.{Mem, IsBytes, within}
use meringue_os.Strings.Walks.{IsString}
use mathlib.Core.List.{append_assoc, append-nil}
use meringue_os.Kernel.{size_room, BootText, early_debug_print, boot_debug_copy}
use meringue_os.Strings.Tokens.{IsString-eq}
use meringue_os.Uart.{Device}
use meringue_os.Uart.Pl011.{IsPl011}
use meringue_os.Uart.Sent.{sends}
use meringue_os.Kernel.Size.{shown_size, shown_size-lt, size_text-shown_size}

module _ {D : Type 0} (dev : Device D) (u : IsPl011 dev) (wait : ℕ)
    (enough : u.patience < wait) where
  early_debug_print-sent :
      (fuel : ℕ) (m : Mem) (p : ℕ) (cs : List ℕ) (d : D)
      → IsBytes m
      → IsString m p cs
      → length cs < fuel
      → (d' : D) × (early_debug_print dev wait fuel m p d ≡ some d') × (u.sent d' ≡ u.sent d ++ cs)
  unfolding early_debug_print
  early_debug_print-sent zero m p cs d b s h = absurd (omega arith)
  early_debug_print-sent (suc fuel) m p [] d b s h =
      let z : (m p == 0) ≡ true = ground arith in (d, rw z refl, sym (append-nil (u.sent d)))
  early_debug_print-sent (suc fuel) m p (c ∷ cs) d b (here, ne, s) h =
      let z : (m p == 0) ≡ false = ground arith in
      let (d1, runs, one) = sends dev u wait (m p) d enough in
      let (d2, more, others) = early_debug_print-sent fuel m (p + 1) cs d1 b s (omega arith) in
      let byte : m p % 256 ≡ c = ground (arith, b p) in
      (
        d2,
        rw (z, runs) more,
        others
            ∙ ap (λ x. x ++ cs) (one ∙ ap (λ x. u.sent d ++ x ∷ []) byte)
            ∙ append_assoc (u.sent d) (c ∷ []) cs,
      )

  -- On a PL011, `boot_debug_copy` sends its two literals and between them the decimal numeral of the
  -- size modulo 2 ^ 32, or nothing where that is 2 ^ 31 or more, and writes only the 16 bytes of
  -- `size_str`: in memory that holds bytes and the literals outside that array, with fuel above the
  -- length of each text and above the number of reads in which the PL011 makes space.
  pub boot_debug_copy-shown_size :
      (T : BootText) (fuel size : ℕ) (m : Mem) (d : D) (before behind : List ℕ)
      → IsBytes m
      → IsString m T.head before
      → IsString m T.tail behind
      → ((a : ℕ)
          → within T.tail (suc (length behind)) a ≡ true
          → within T.size_str size_room a ≡ false)
      → length before < fuel
      → 20 < fuel
      → length behind < fuel
      → (m' : Mem) × (d' : D) × (boot_debug_copy dev wait T fuel size m d ≡ some (m', d'))
        × (u.sent d' ≡ u.sent d ++ (before ++ (shown_size size ++ behind)))
        × ((a : ℕ) → within T.size_str size_room a ≡ false → m' a ≡ m a)
  unfolding boot_debug_copy
  boot_debug_copy-shown_size T fuel size m d before behind b head tail outside h1 h2 h3 =
      let (m', puts, text, kept, b') = size_text-shown_size T.size_str size m b in
      let (d1, runs1, one) = early_debug_print-sent fuel m T.head before d b head h1 in
      let (d2, runs2, two) =
        early_debug_print-sent fuel m' T.size_str (shown_size size) d1 b' text
          (shown_size-lt fuel size h2) in
      let tail' = IsString-eq m m' T.tail behind (λ a w. kept a (outside a w)) tail in
      let (d3, runs3, three) = early_debug_print-sent fuel m' T.tail behind d2 b' tail' h3 in
      (
        m',
        d3,
        rw (runs1, puts, runs2, runs3) refl,
        rw (three, two, one)
            (append_assoc (u.sent d ++ before) (shown_size size) behind
              ∙ append_assoc (u.sent d) before (shown_size size ++ behind)),
        kept,
      )
