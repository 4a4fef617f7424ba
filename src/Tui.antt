-- ===== src/Tui.antt =====
-- src/ui/tui.c, by its calls of `kprintf`.
use meringue_os.Prelude.{
  ℕ, zero, suc, ◌+◌, ◌%◌, ◌<◌, ◌≡◌, refl, some, ◌==◌, if◌then◌else◌, List, [], ◌∷◌, ◌++◌, arith,
  String, codes,
}
use meringue_os.Memory.{Mem, IsBytes}
use meringue_os.Strings.Walks.{IsString}
use meringue_os.Stdio.Pieces.{character}
use meringue_os.Stdio.Calls.{Print, print, all_sent, sent-texts}

-- The result, 0 always, and the messages.
unfoldable pub tui_init : ℕ × List Print
tui_init = (
  0,
  print "TUI: Initializing...\n" []
      ∷ print "TUI: Using fallback console mode (no framebuffer)\n" []
      ∷ [],
)

unfoldable pub tui_write : Mem → ℕ → ℕ → List Print
tui_write m start zero = []
tui_write m start (suc len) = print "%c" (m start ∷ []) ∷ tui_write m (start + 1) len

-- The bytes from `p` that are no NUL.
abbrev shown : Mem → ℕ → ℕ → List ℕ
shown m p zero = []
shown m p (suc n) = (if m p == 0 then [] else m p ∷ []) ++ shown m (p + 1) n

-- Where memory holds bytes and the format, `tui_write` sends the bytes of the data in order, all but
-- the NULs among them.
tui_write-shown :
    (fuel : ℕ) (m : Mem) (at : String → ℕ) (start len : ℕ)
    → IsBytes m
    → IsString m (at "%c") (codes "%c")
    → 1 < fuel
    → all_sent fuel m at (tui_write m start len) ≡ some (shown m start len)
unfolding tui_write all_sent
tui_write-shown fuel m at start zero b s enough = refl
tui_write-shown fuel m at start (suc len) b s enough =
    let one =
      sent-texts fuel m at "%c" (character (m start) ∷ []) [] s refl refl (omega arith) enough in
    let e : m start % 256 ≡ m start = ground (arith, b start) in
    rw (one, tui_write-shown fuel m at (start + 1) len b s enough, e) refl
