-- ===== src/Compiler/Parser/Ahead.antt =====
-- compiler/parser.c: the functions that look ahead over the tokens: `type_start`, `lambda_ahead` and
-- `generic_call_ahead`.
use tiny_cplus.Prelude.{
  ℕ, zero, suc, ◌+◌, ◌-◌, Bool, true, false, ◌&&◌, ◌||◌, List, [], ◌∷◌, ◌++◌, ltb, leb, ◌==◌,
  if◌then◌else◌, length, get_or,
}
use tiny_cplus.Prelude.Text.{codes, same}
use tiny_cplus.Compiler.Lexer.{Token, id, starts}
use tiny_cplus.Compiler.Types.{CType}
use tiny_cplus.Compiler.Parser.{State, token_at, ahead, is_token}

-- `strstr`
unfoldable pub occurs : List ℕ → List ℕ → Bool
occurs w [] = starts w []
occurs w (b ∷ bs) = starts w (b ∷ bs) || occurs w bs

abbrev pub type_words : List ℕ
type_words =
    codes
      " void bool i8 u8 i16 u16 i32 u32 i64 u64 float double char string int uint byte short long ulong size_t Error StringView "

abbrev pub among : List ℕ → List (List ℕ) → Bool
among s [] = false
among s (w ∷ ws) = same s w || among s ws

unfoldable pub names_type : List ℕ → List CType → Bool
names_type s [] = false
names_type s (t ∷ ts) = same t.name s || names_type s ts

abbrev pub first_is : List Token → List ℕ → Bool
first_is [] w = false
first_is (t ∷ ts) w = same t.text w

abbrev pub first_is_name : List Token → Bool
first_is_name [] = false
first_is_name (t ∷ ts) = is_token t.kind id

-- Behind a dotted name stands a name or a star: the loop of `type_start`.
unfoldable pub dotted_type : List Token → Bool
dotted_type (t ∷ d ∷ i ∷ rest) =
    let more = dotted_type (i ∷ rest) in
    if same d.text (codes ".") && is_token i.kind id
    then more
    else is_token d.kind id || same d.text (codes "*")
dotted_type (t ∷ d ∷ []) = is_token d.kind id || same d.text (codes "*")
dotted_type (t ∷ []) = false
dotted_type [] = false

abbrev pub is_upper : ℕ → Bool
is_upper b = leb b'A' b && leb b b'Z'

unfoldable pub type_start : State → Bool
type_start s =
    let w = (token_at 0 s).text in
    if ahead 1 (codes ".") s
    then dotted_type s.rest
    else if ahead 1 (codes "(") s
    then false
    else if among w (
        codes "const"
        ∷ codes "var"
        ∷ codes "Slice"
        ∷ codes "Array"
        ∷ codes "Channel"
        ∷ codes "Task"
        ∷ codes "Future"
        ∷ codes "func"
        ∷ codes "closure"
        ∷ [])
    then true
    else if names_type w s.table.types
    then true
    else if occurs (codes " " ++ (w ++ codes " ")) type_words
    then true
    else is_upper (get_or w 0 0)
      && ltb 1 (length s.rest)
      && (is_token (token_at 1 s).kind id
          || same (token_at 1 s).text (codes "*")
          || same (token_at 1 s).text (codes "["))

abbrev pub nesting : ℕ → List ℕ → ℕ
nesting depth w =
    if same w (codes "(") then depth + 1 else if same w (codes ")") then depth - 1 else depth

-- The loop of `lambda_ahead`; `depth` is above 0 in every round but the first.
unfoldable pub lambda_scan : ℕ → List Token → Bool
lambda_scan depth [] = false
lambda_scan depth (t ∷ ts) =
    let more = lambda_scan (nesting depth t.text) ts in
    if ltb 0 (nesting depth t.text) then more else first_is ts (codes "=>")

unfoldable pub lambda_ahead : State → Bool
lambda_ahead s = same (token_at 0 s).text (codes "(") && lambda_scan 0 s.rest

-- A depth below 0 stops the loop as 0 does.
abbrev pub angles : ℕ → List ℕ → ℕ
angles depth w =
    if same w (codes "<")
    then depth + 1
    else if same w (codes ">")
    then depth - 1
    else if same w (codes ">>")
    then depth - 2
    else depth

-- The loop of `generic_call_ahead`, over 128 tokens at most.
unfoldable pub generic_scan : ℕ → ℕ → List Token → Bool
generic_scan zero depth ts = false
generic_scan (suc left) depth [] = false
generic_scan (suc left) depth (t ∷ ts) =
    let more = generic_scan left (angles depth t.text) ts in
    if same t.text (codes ";") || same t.text (codes "{") || same t.text (codes "=")
    then false
    else if angles depth t.text == 0
    then first_is ts (codes "(") || first_is ts (codes ".")
    else more

unfoldable pub generic_call_ahead : State → Bool
generic_call_ahead s = same (token_at 0 s).text (codes "<") && generic_scan 128 0 s.rest
