-- ===== src/Shell/Line/Edit.antt =====
-- The line reader of src/shell/shell.c against an editor of lists of characters.
use meringue_os.Prelude.{
  ℕ, ◌+◌, ◌-◌, ◌<◌, ◌≡◌, refl, true, false, Option, none, some, ltb, if◌then◌else◌, List, [], ◌∷◌,
  ◌++◌, length, length-append, All, All-append, arith, Bool-cases, inl, inr, sub64,
}
use mathlib.Core.Path.{subst}
use meringue_os.Memory.{Mem, write, memset, memset_lem, within}
use meringue_os.Strings.Walks.{IsString}
use meringue_os.Shell.Line.{
  max_cmd_len, is_end, is_backspace, is_printable, key, read_loop, read_line,
}

abbrev pub drop_last : List ℕ → List ℕ
drop_last [] = []
drop_last (c ∷ []) = []
drop_last (c ∷ d ∷ cs) = c ∷ drop_last (d ∷ cs)

-- A line after a character that does not end it.
abbrev pub edit : List ℕ → ℕ → List ℕ
edit line c =
    if is_backspace c then drop_last line else if is_printable c then line ++ c ∷ [] else line

-- The line that is typed, and the characters behind it: up to the first end of line, or until it has
-- 127 characters.
abbrev pub typed : List ℕ → List ℕ → Option (List ℕ × List ℕ)
typed line [] = if ltb (length line) (max_cmd_len - 1) then none else some (line, [])
typed line (c ∷ input) =
    let rest = typed (edit line c) input in
    if ltb (length line) (max_cmd_len - 1)
    then (if is_end c then some (line, input) else rest)
    else some (line, c ∷ input)

-- The bytes of a text in memory.
abbrev pub Holds : Mem → ℕ → List ℕ → Type 0
Holds m p [] = Unit
Holds m p (c ∷ cs) = (m p ≡ c) × Holds m (p + 1) cs

abbrev pub Printable : ℕ → Type 0
Printable c = is_printable c ≡ true

length-drop_last : (cs : List ℕ) → length (drop_last cs) ≡ length cs - 1
length-drop_last [] = omega arith
length-drop_last (c ∷ []) = omega arith
length-drop_last (c ∷ d ∷ cs) = omega (arith, length-drop_last (d ∷ cs))

Holds-drop_last : (m : Mem) (p : ℕ) (cs : List ℕ) → Holds m p cs → Holds m p (drop_last cs)
Holds-drop_last m p [] h = tt
Holds-drop_last m p (c ∷ []) h = tt
Holds-drop_last m p (c ∷ d ∷ cs) (e, h) = (e, Holds-drop_last m (p + 1) (d ∷ cs) h)

All-drop_last : (cs : List ℕ) → All Printable cs → All Printable (drop_last cs)
All-drop_last [] h = tt
All-drop_last (c ∷ []) h = tt
All-drop_last (c ∷ d ∷ cs) (e, h) = (e, All-drop_last (d ∷ cs) h)

Holds-snoc :
    (m : Mem) (p q c : ℕ) (cs : List ℕ)
    → c < 256
    → q ≡ p + length cs
    → Holds m p cs
    → Holds (write m q c) p (cs ++ c ∷ [])
unfolding write
Holds-snoc m p q c [] b e h = (ground arith, tt)
Holds-snoc m p q c (d ∷ cs) b e (f, h) =
    (ground arith, Holds-snoc m (p + 1) q c cs b (omega arith) h)

Holds-IsString :
    (m : Mem) (p q : ℕ) (cs : List ℕ)
    → q ≡ p + length cs
    → Holds m p cs
    → All Printable cs
    → IsString (write m q 0) p cs
unfolding write
Holds-IsString m p q [] e h a = ground arith
Holds-IsString m p q (c ∷ cs) e (f, h) (print, a) =
    (ground arith, ground arith, Holds-IsString m (p + 1) q cs (omega arith) h a)

-- The buffer holds the line, and nothing outside it changes.
pub record IsTyped (cmd_buffer : ℕ) (old m : Mem) (line : List ℕ) : Type 0 where
  pub holds : Holds m cmd_buffer line
  pub printable : All Printable line
  pub short : length line < max_cmd_len
  pub kept : (a : ℕ) → within cmd_buffer max_cmd_len a ≡ false → m a ≡ old a

module _ (cmd_buffer : ℕ) (old : Mem) where
  key-IsTyped :
      (m : Mem) (line : List ℕ) (c : ℕ)
      → IsTyped cmd_buffer old m line
      → length line < max_cmd_len - 1
      → IsTyped cmd_buffer old (key cmd_buffer c m (length line)).0 (edit line c)
        × ((key cmd_buffer c m (length line)).1 ≡ length (edit line c))
  unfolding key
  key-IsTyped m line c t room = elim (Bool-cases (is_backspace c)) [
    | inl back ↦
        let shorter = length-drop_last line in
        let typed' : IsTyped cmd_buffer old m (drop_last line) = record {
          holds = Holds-drop_last m cmd_buffer line t.holds;
          printable = All-drop_last line t.printable;
          short = omega (arith, shorter, room);
          kept = t.kept;
        } in
        elim (Bool-cases (ltb 0 (length line))) [
          | inl some_left ↦
              let one_less : sub64 (length line) 1 ≡ length (drop_last line) =
                ground (arith, shorter, room) in
              rw (back, some_left) (typed', one_less)
          | inr empty ↦ rw (back, empty) (typed', ground (arith, shorter))
        ]
    | inr other ↦ elim (Bool-cases (is_printable c)) [
      | inl print ↦
          let more = length-append line (c ∷ []) in
          rw (other, print)
            (
              record {
                holds =
                    Holds-snoc m cmd_buffer (cmd_buffer + length line) c line (ground arith) refl
                      t.holds;
                printable = All-append Printable line (c ∷ []) t.printable (print, tt);
                short = omega (arith, more, room);
                kept = λ a o. unfold write in ground (arith, t.kept a);
              },
              omega (arith, more),
            )
      | inr ignored ↦ rw (other, ignored) (t, refl)
    ]
  ]

  -- Where the line ends.
  ended :
      (m : Mem) (line line' tail rest : List ℕ)
      → IsTyped cmd_buffer old m line
      → ◌≡◌ {A = Option (List ℕ × List ℕ)} (some (line, tail)) (some (line', rest))
      → (m' : Mem) × (◌≡◌ {A = Option (Mem × ℕ × List ℕ)}
          (some (m, length line, tail))
          (some (m', length line', rest)))
        × IsTyped cmd_buffer old m' line'
  ended m line line' tail rest t e =
      let g : line ≡ line' = cc in
      let h : tail ≡ rest = cc in
      (m, λ i. some (m, length (g i), h i), subst (IsTyped cmd_buffer old m) g t)

  read_loop-typed :
      (input : List ℕ) (m : Mem) (line line' rest : List ℕ)
      → IsTyped cmd_buffer old m line
      → typed line input ≡ some (line', rest)
      → (m' : Mem) × (read_loop cmd_buffer input m (length line) ≡ some (m', length line', rest))
        × IsTyped cmd_buffer old m' line'
  unfolding read_loop
  read_loop-typed [] m line line' rest t e =
      elim (Bool-cases (ltb (length line) (max_cmd_len - 1))) [
        | inl less ↦
            let f : ◌≡◌ {A = Option (List ℕ × List ℕ)} none (some (line', rest)) = rw less at e in
            absurd (cc)
        | inr full ↦ rw full (ended m line line' [] rest t (rw full at e))
      ]
  read_loop-typed (c ∷ input) m line line' rest t e =
      elim (Bool-cases (ltb (length line) (max_cmd_len - 1))) [
        | inr full ↦ rw full (ended m line line' (c ∷ input) rest t (rw full at e))
        | inl less ↦ elim (Bool-cases (is_end c)) [
          | inl end ↦ rw (less, end) (ended m line line' input rest t (rw (less, end) at e))
          | inr more ↦
              let (t', at) = key-IsTyped m line c t (ground arith) in
              let (m', runs, done) =
                read_loop-typed input (key cmd_buffer c m (length line)).0 (edit line c) line' rest
                  t' (rw (less, more) at e) in
              (m', rw (less, more, at) runs, done)
        ]
      ]

-- From what is typed, where the input has a whole line, `read_line` makes the line in the buffer: the
-- printable characters, of which each backspace takes the last one back, at most 127 of them, with a
-- NUL behind; the input goes on behind the end of the line. No byte outside the buffer changes.
pub read_line-typed :
    (cmd_buffer : ℕ) (input : List ℕ) (m : Mem) (line rest : List ℕ)
    → typed [] input ≡ some (line, rest)
    → (m' : Mem) × (read_line cmd_buffer input m ≡ some (m', length line, rest))
      × IsString m' cmd_buffer line
      × All Printable line
      × (length line < max_cmd_len)
      × ((a : ℕ) → within cmd_buffer max_cmd_len a ≡ false → m' a ≡ m a)
unfolding read_line
read_line-typed cmd_buffer input m line rest e =
    let clear = memset m cmd_buffer 0 max_cmd_len in
    let (k, runs, t) =
      read_loop-typed cmd_buffer m input clear [] line rest
        (record {
          holds = tt;
          printable = tt;
          short = omega arith;
          kept = λ a o. ground (arith, memset_lem m cmd_buffer 0 max_cmd_len a);
        })
        e in
    (
      write k (cmd_buffer + length line) 0,
      rw runs refl,
      Holds-IsString k cmd_buffer (cmd_buffer + length line) line refl t.holds t.printable,
      t.printable,
      t.short,
      λ a o. let room = t.short in unfold write in ground (arith, t.kept a),
    )
