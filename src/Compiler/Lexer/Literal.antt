-- ===== src/Compiler/Lexer/Literal.antt =====
-- compiler/lexer.c: string and character literals.
use tiny_cplus.Prelude.{ℕ, suc, ◌+◌, not, ◌&&◌, ◌||◌, ◌==◌, if◌then◌else◌, length, ◌⊎◌, inl, inr}
use tiny_cplus.Compiler.Loop.{
  Loc, newline_in_literal, hex_escape, unsupported_escape, unterminated_literal, one_character,
  Result, error, ok, and_then, iterate,
}
use tiny_cplus.Compiler.Lexer.{
  TokenKind, string, char, Cursor, byte, forward, is_xdigit, holds, escapes,
}

-- The cursor and `count`
abbrev pub Counted : Type 0
Counted = Cursor × ℕ

-- From the backslash of an escape on; the loop breaks where the file ends behind it.
unfoldable pub escape : Loc → Cursor → ℕ → Result (Counted ⊎ Counted)
escape l c count =
    let d = forward 1 c in
    if byte d 0 == 0
    then ok (inr (d, count))
    else if byte d 0 == 120
    then if not (is_xdigit (byte d 1)) || not (is_xdigit (byte d 2))
      then error l hex_escape
      else ok (inl (forward 1 (forward 2 d), count + 1))
    else if not (holds escapes (byte d 0))
    then error l (unsupported_escape (byte d 0))
    else ok (inl (forward 1 d, count + 1))

-- The loop's condition and its body.
unfoldable pub literal_body : Loc → ℕ → Counted → Result (Counted ⊎ Counted)
literal_body l quote (c, count) =
    if byte c 0 == 0 || byte c 0 == quote
    then ok (inr (c, count))
    else if byte c 0 == 10 || byte c 0 == 13
    then error l newline_in_literal
    else if byte c 0 == 92
    then escape l c count
    else ok (inl (forward 1 c, count + 1))

unfoldable pub closed_literal : Loc → ℕ → Counted → Result (TokenKind × Cursor)
closed_literal l quote (c, count) =
    if byte c 0 == 0
    then error l unterminated_literal
    else if quote == 39 && not (count == 1)
    then error l one_character
    else ok (if quote == 34 then string else char, forward 1 c)

-- The loop runs at most once for each byte that is left.
unfoldable pub literal : Loc → Cursor → Result (TokenKind × Cursor)
literal l c =
    and_then (iterate (literal_body l (byte c 0)) (suc (length c.rest)) (forward 1 c, 0))
      (closed_literal l (byte c 0))
