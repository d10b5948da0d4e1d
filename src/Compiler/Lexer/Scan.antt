-- ===== src/Compiler/Lexer/Scan.antt =====
-- compiler/lexer.c: comments, operators, and the loop of `lex` with its `push`.
use tiny_cplus.Prelude.{
  ℕ, suc, ◌+◌, ◌-◌, ◌*◌, Bool, not, ◌&&◌, ◌||◌, List, [], ◌∷◌, ◌++◌, Option, none, some, ltb, ◌==◌,
  if◌then◌else◌, length, take, drop, ◌⊎◌, inl, inr,
}
use tiny_cplus.Compiler.Loop.{
  Loc, token_limit, out_of_memory, unterminated_comment, unexpected_byte, Result, error, ok,
  and_then, iterate,
}
use tiny_cplus.Compiler.Lexer.{
  TokenKind, eof, id, op, Token, Cursor, byte, loc, forward, tick, run, is_space, is_digit,
  is_alpha, in_name, holds, starts, ops, marks,
}
use tiny_cplus.Compiler.Lexer.Number.{number}
use tiny_cplus.Compiler.Lexer.Literal.{literal}

abbrev pub in_line : ℕ → Bool
in_line b = not (b == 0) && not (b == 10)

-- The loop over a block comment, with its level.
unfoldable pub comment_body : Cursor × ℕ → Result ((Cursor × ℕ) ⊎ (Cursor × ℕ))
comment_body (c, level) =
    if byte c 0 == 0 || level == 0
    then ok (inr (c, level))
    else if byte c 0 == 47 && byte c 1 == 42
    then ok (inl (forward 2 c, level + 1))
    else if byte c 0 == 42 && byte c 1 == 47
    then ok (inl (forward 2 c, level - 1))
    else ok (inl (tick c, level))

-- What one round of the loop of `lex` finds: blanks or a comment, or a token.
pub data Found : Type 0 where
  blank : Cursor → Found
  lexeme : TokenKind → Cursor → Found

unfoldable pub closed_comment : Loc → Cursor × ℕ → Result Found
closed_comment l (c, level) = if level == 0 then ok (blank c) else error l unterminated_comment

unfoldable pub comment : Loc → Cursor → Result Found
comment l c =
    and_then (iterate comment_body (suc (length c.rest)) (forward 2 c, 1)) (closed_comment l)

-- The length of the first operator of the list that stands here.
unfoldable pub first_op : List (List ℕ) → List ℕ → Option ℕ
first_op [] s = none
first_op (o ∷ os) s = if starts o s then some (length o) else first_op os s

unfoldable pub operator_of : Loc → Cursor → Option ℕ → Result Found
operator_of l c (some n) = ok (lexeme op (forward n c))
operator_of l c none =
    if holds marks (byte c 0)
    then ok (lexeme op (forward 1 c))
    else error l (unexpected_byte (byte c 0))

unfoldable pub operator : Loc → Cursor → Result Found
operator l c = operator_of l c (first_op ops c.rest)

abbrev pub found : TokenKind × Cursor → Result Found
found (k, c) = ok (lexeme k c)

unfoldable pub scan : Cursor → Result Found
scan c =
    let b = byte c 0 in
    if is_space b
    then ok (blank (tick c))
    else if b == 47 && byte c 1 == 47
    then ok (blank (run in_line c))
    else if b == 47 && byte c 1 == 42
    then comment (loc c) c
    else if is_alpha b || b == 95
    then ok (lexeme id (run in_name (forward 1 c)))
    else if is_digit b
    then and_then (number (loc c) c) found
    else if b == 34 || b == 39
    then and_then (literal (loc c) c) found
    else operator (loc c) c

-- The tokens of the context and `tokcap`
pub record Tokens : Type 0 where
  pub list : List Token
  pub capacity : ℕ

-- sizeof(Token) with 8-byte pointers
abbrev pub sizeof_token : ℕ
sizeof_token = 32

unfoldable pub push : (ℕ → Bool) → Tokens → Token → Result Tokens
push realloc ts t =
    if length ts.list == ts.capacity
    then (let cap = (if ts.capacity == 0 then 256 else ts.capacity * 2) in
        if ltb 2000000 cap
        then error t.loc token_limit
        else if not (realloc (cap * sizeof_token))
        then error t.loc out_of_memory
        else ok (record { list = ts.list ++ t ∷ []; capacity = cap }))
    else ok (record ts { list = ts.list ++ t ∷ [] })

-- The bytes from one cursor to a later one.
unfoldable pub between : Cursor → Cursor → List ℕ
between c d = take (length c.rest - length d.rest) c.rest

unfoldable pub take_in : (ℕ → Bool) → Tokens → Cursor → Found → Result (Cursor × Tokens)
take_in realloc ts c (blank d) = ok (d, ts)
take_in realloc ts c (lexeme k d) =
    and_then (push realloc ts (record { kind = k; text = between c d; loc = loc c }))
      (λ us. ok (d, us))

abbrev pub carry_on {ℓ κ} : {A : Type ℓ} {B : Type κ} → A → Result (A ⊎ B)
carry_on a = ok (inl a)

-- The condition of the loop and its body.
unfoldable pub lex_body :
    (ℕ → Bool) → Cursor × Tokens → Result ((Cursor × Tokens) ⊎ (Cursor × Tokens))
lex_body realloc (c, ts) =
    if byte c 0 == 0
    then ok (inr (c, ts))
    else and_then (and_then (scan c) (take_in realloc ts c)) carry_on

-- The byte order mark
abbrev pub mark : List ℕ
mark = 239 ∷ 187 ∷ 191 ∷ []

unfoldable pub start : List ℕ → Cursor
start s = record { rest = if starts mark s then drop 3 s else s; line = 1; col = 1 }

unfoldable pub finish : (ℕ → Bool) → Cursor × Tokens → Result Tokens
finish realloc (c, ts) = push realloc ts (record { kind = eof; text = []; loc = loc c })

unfoldable pub lex : (ℕ → Bool) → Tokens → List ℕ → Result Tokens
lex realloc ts s =
    and_then (iterate (lex_body realloc) (suc (length s)) (start s, ts)) (finish realloc)
