-- ===== src/Compiler/Lexer/Number.antt =====
-- compiler/lexer.c: numeric literals.
use tiny_cplus.Prelude.{not, ◌&&◌, ◌||◌, ◌==◌, if◌then◌else◌}
use tiny_cplus.Compiler.Loop.{
  Loc, hex_digits, exponent_digits, numeric_suffix, Result, error, ok, and_then,
}
use tiny_cplus.Compiler.Lexer.{
  TokenKind, int, float, Cursor, byte, forward, run, is_digit, is_xdigit, is_alpha,
}

unfoldable pub hexadecimal : Loc → Cursor → Result (TokenKind × Cursor)
hexadecimal l c =
    let d = forward 2 c in
    if not (is_xdigit (byte d 0)) then error l hex_digits else ok (int, run is_xdigit d)

unfoldable pub fraction : Cursor → TokenKind × Cursor
fraction c =
    if byte c 0 == 46 && not (byte c 1 == 46) then (float, run is_digit (forward 1 c)) else (int, c)

-- What stands behind `e`, with the sign passed.
unfoldable pub signed : Cursor → Cursor
signed c = if byte c 0 == 43 || byte c 0 == 45 then forward 1 c else c

unfoldable pub exponent : Loc → TokenKind × Cursor → Result (TokenKind × Cursor)
exponent l (k, c) =
    if byte c 0 == 101 || byte c 0 == 69
    then (let d = signed (forward 1 c) in
        if not (is_digit (byte d 0)) then error l exponent_digits else ok (float, run is_digit d))
    else ok (k, c)

unfoldable pub decimal : Loc → Cursor → Result (TokenKind × Cursor)
decimal l c = exponent l (fraction (run is_digit c))

unfoldable pub unsuffixed : Loc → TokenKind × Cursor → Result (TokenKind × Cursor)
unsuffixed l (k, c) =
    if is_alpha (byte c 0) || byte c 0 == 95 then error l numeric_suffix else ok (k, c)

unfoldable pub number_part : Loc → Cursor → Result (TokenKind × Cursor)
number_part l c =
    if byte c 0 == 48 && (byte c 1 == 120 || byte c 1 == 88) then hexadecimal l c else decimal l c

unfoldable pub number : Loc → Cursor → Result (TokenKind × Cursor)
number l c = and_then (number_part l c) (unsuffixed l)
