-- ===== src/Stdio/Pieces.antt =====
-- A description of the formats of `kprintf` (src/lib/stdio.c): a format is a sequence of pieces, each of
-- which stands for a text.
use meringue_os.Prelude.{
  ℕ, ◌%◌, ◌^◌, ◌≤◌, ◌≡◌, ◌≢◌, Bool, true, false, ◌||◌, ◌==◌, List, [], ◌∷◌, ◌++◌, length,
}
use meringue_os.Memory.{Mem}
use meringue_os.Strings.Walks.{IsString}
use meringue_os.Stdio.Numerals.{numeral, signed_numeral}

pub data Piece : Type 0 where
  literal : ℕ → Piece
  percent : Piece
  character : ℕ → Piece
  string : ℕ → List ℕ → Piece
  integer : ℕ → Piece
  unsigned_int : ℕ → Piece
  long_unsigned : ℕ → Piece
  hex : Bool → ℕ → Piece
  short_hex : ℕ → Piece
  -- A `%` before a character that is no specifier.
  unknown : ℕ → Piece

-- How it is written in a format; the argument that it takes; and the text that it stands for.
abbrev pub spelling : Piece → List ℕ
spelling (literal c) = c ∷ []
spelling percent = b'%' ∷ b'%' ∷ []
spelling (character a) = b'%' ∷ b'c' ∷ []
spelling (string a cs) = b'%' ∷ b's' ∷ []
spelling (integer v) = b'%' ∷ b'd' ∷ []
spelling (unsigned_int v) = b'%' ∷ b'u' ∷ []
spelling (long_unsigned v) = b'%' ∷ b'l' ∷ b'l' ∷ b'u' ∷ []
spelling (hex false v) = b'%' ∷ b'l' ∷ b'l' ∷ b'x' ∷ []
spelling (hex true v) = b'%' ∷ b'l' ∷ b'l' ∷ b'X' ∷ []
spelling (short_hex v) = b'%' ∷ b'x' ∷ []
spelling (unknown c) = b'%' ∷ c ∷ []

abbrev pub argument : Piece → List ℕ
argument (literal c) = []
argument percent = []
argument (character a) = a ∷ []
argument (string a cs) = a ∷ []
argument (integer v) = v ∷ []
argument (unsigned_int v) = v ∷ []
argument (long_unsigned v) = v ∷ []
argument (hex upper v) = v ∷ []
argument (short_hex v) = v ∷ []
argument (unknown c) = []

abbrev pub text_of : Piece → List ℕ
text_of (literal c) = c ∷ []
text_of percent = b'%' ∷ []
text_of (character a) = (a % 256) ∷ []
text_of (string a cs) = cs
text_of (integer v) = signed_numeral 32 (v % 2 ^ 32)
text_of (unsigned_int v) = numeral false 10 (v % 2 ^ 32)
text_of (long_unsigned v) = numeral false 10 (v % 2 ^ 64)
text_of (hex upper v) = numeral upper 16 (v % 2 ^ 64)
text_of (short_hex v) = numeral false 16 (v % 2 ^ 32)
text_of (unknown c) = b'%' ∷ c ∷ []

-- What may follow a `%`, NUL and the `l` of a modifier included.
abbrev pub is_specifier : ℕ → Bool
is_specifier c =
    c == 0
    || c == b'l'
    || c == b'c'
    || c == b's'
    || c == b'd'
    || c == b'i'
    || c == b'u'
    || c == b'x'
    || c == b'X'
    || c == b'p'
    || c == b'%'

-- A literal is neither `%` nor NUL; a string argument points at its text, of at most `bound` bytes.
abbrev pub IsPiece : Mem → ℕ → Piece → Type 0
IsPiece m bound (literal c) = (c ≢ 0) × (c ≢ b'%')
IsPiece m bound (string a cs) = (a ≢ 0) × IsString m a cs × (length cs ≤ bound)
IsPiece m bound (unknown c) = is_specifier c ≡ false
IsPiece m bound _ = Unit

abbrev pub spellings : List Piece → List ℕ
spellings [] = []
spellings (x ∷ xs) = spelling x ++ spellings xs

abbrev pub arguments : List Piece → List ℕ
arguments [] = []
arguments (x ∷ xs) = argument x ++ arguments xs

abbrev pub texts : List Piece → List ℕ
texts [] = []
texts (x ∷ xs) = text_of x ++ texts xs
