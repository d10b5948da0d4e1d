-- ===== src/Compiler/Lexer.antt =====
-- compiler/lexer.c: the bytes of a source file become tokens. A file is the list of its bytes, which
-- the C string ends with a zero; `line` and `col` are ℕ where the source has int.
pub mod Moves
pub mod Number
pub mod Literal
pub mod Scan
pub mod Numbers
pub mod Skipped
pub mod Rounds
pub mod Comments
pub mod Operators
pub mod Read
pub mod Whole
pub mod Examples
use tiny_cplus.Prelude.{
  ℕ, zero, suc, ◌+◌, ◌-◌, ◌*◌, Bool, true, false, not, ◌&&◌, ◌||◌, List, [], ◌∷◌, ◌++◌, Option,
  none, some, ltb, leb, ◌==◌, if◌then◌else◌, length, get_or, take, drop, ◌⊎◌, inl, inr,
}
use tiny_cplus.Compiler.Loop.{Loc}

pub data TokenKind : Type 0 where
  eof id int float string char op : TokenKind

pub record Token : Type 0 where
  pub kind : TokenKind
  pub text : List ℕ
  pub loc : Loc

-- s + i, line and col
pub record Cursor : Type 0 where
  pub rest : List ℕ
  pub line : ℕ
  pub col : ℕ

abbrev pub byte : Cursor → ℕ → ℕ
byte c k = get_or c.rest k 0

abbrev pub loc : Cursor → Loc
loc c = record { line = c.line; col = c.col }

-- `i += n; col += n;`
unfoldable pub forward : ℕ → Cursor → Cursor
forward n c = record c { rest = drop n c.rest; col = c.col + n }

-- One byte on, to the next line behind a newline.
unfoldable pub tick : Cursor → Cursor
tick c = record {
  rest = drop 1 c.rest;
  line = if byte c 0 == 10 then c.line + 1 else c.line;
  col = if byte c 0 == 10 then 1 else c.col + 1;
}

unfoldable pub span : (ℕ → Bool) → List ℕ → ℕ
span p [] = 0
span p (x ∷ xs) = elim (p x) [ true ↦ suc (span p xs) | false ↦ 0 ]

-- `while (p(s[i])) { i++; col++; }`, for a test that the zero at the end fails
unfoldable pub run : (ℕ → Bool) → Cursor → Cursor
run p c = forward (span p c.rest) c

-- ctype.h in the "C" locale
abbrev pub within : ℕ → ℕ → ℕ → Bool
within low high b = leb low b && leb b high

abbrev pub is_space : ℕ → Bool
is_space b = b == 32 || within 9 13 b

abbrev pub is_digit : ℕ → Bool
is_digit b = within 48 57 b

abbrev pub is_alpha : ℕ → Bool
is_alpha b = within 65 90 b || within 97 122 b

abbrev pub is_xdigit : ℕ → Bool
is_xdigit b = within 48 57 b || within 65 70 b || within 97 102 b

abbrev pub in_name : ℕ → Bool
in_name b = is_alpha b || is_digit b || b == 95

-- strchr of a byte that is not zero
unfoldable pub holds : List ℕ → ℕ → Bool
holds [] b = false
holds (x ∷ xs) b = x == b || holds xs b

-- `strncmp(s + i, op, strlen(op)) == 0`, for an op without a zero
unfoldable pub starts : List ℕ → List ℕ → Bool
starts [] s = true
starts (x ∷ xs) [] = false
starts (x ∷ xs) (y ∷ ys) = x == y && starts xs ys

-- ! " # and so on are 33, 34, 35 ...
abbrev pub ops : List (List ℕ)
ops =
    (62 ∷ 62 ∷ 61 ∷ [])
    ∷ (60 ∷ 60 ∷ 61 ∷ [])
    ∷ (46 ∷ 46 ∷ 46 ∷ [])
    ∷ (61 ∷ 61 ∷ [])
    ∷ (33 ∷ 61 ∷ [])
    ∷ (60 ∷ 61 ∷ [])
    ∷ (62 ∷ 61 ∷ [])
    ∷ (38 ∷ 38 ∷ [])
    ∷ (124 ∷ 124 ∷ [])
    ∷ (43 ∷ 43 ∷ [])
    ∷ (45 ∷ 45 ∷ [])
    ∷ (43 ∷ 61 ∷ [])
    ∷ (45 ∷ 61 ∷ [])
    ∷ (42 ∷ 61 ∷ [])
    ∷ (47 ∷ 61 ∷ [])
    ∷ (37 ∷ 61 ∷ [])
    ∷ (38 ∷ 61 ∷ [])
    ∷ (124 ∷ 61 ∷ [])
    ∷ (94 ∷ 61 ∷ [])
    ∷ (60 ∷ 60 ∷ [])
    ∷ (62 ∷ 62 ∷ [])
    ∷ (45 ∷ 62 ∷ [])
    ∷ (61 ∷ 62 ∷ [])
    ∷ (58 ∷ 58 ∷ [])
    ∷ []

-- "+-*/%=<>!&|^~(){}[];,.:?@"
abbrev pub marks : List ℕ
marks =
    43 ∷ 45 ∷ 42 ∷ 47 ∷ 37 ∷ 61 ∷ 60 ∷ 62 ∷ 33 ∷ 38 ∷ 124 ∷ 94 ∷ 126 ∷ 40 ∷ 41 ∷ 123 ∷ 125 ∷ 91 ∷ 93
    ∷ 59 ∷ 44 ∷ 46 ∷ 58 ∷ 63 ∷ 64 ∷ []

-- "abfnrtv\\\"'0"
abbrev pub escapes : List ℕ
escapes = 97 ∷ 98 ∷ 102 ∷ 110 ∷ 114 ∷ 116 ∷ 118 ∷ 92 ∷ 34 ∷ 39 ∷ 48 ∷ []
