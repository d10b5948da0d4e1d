-- ===== src/Compiler/Lexer/Examples.antt =====
-- The lexer on small sources.
use tiny_cplus.Prelude.{ℕ, ◌≡◌, refl, true, Bool, List, [], ◌∷◌, ◌++◌, arith}
use tiny_cplus.Compiler.Loop.{ok, error, Ends, unterminated_comment}
use tiny_cplus.Compiler.Lexer.{TokenKind, eof, id, int, op, Token}
use tiny_cplus.Compiler.Lexer.{starts, run, forward, span, tick, holds}
use tiny_cplus.Compiler.Lexer.Number.{number, hexadecimal, number_part, unsuffixed}
use tiny_cplus.Compiler.Lexer.Scan.{
  Tokens, lex, start, lex_body, scan, take_in, push, comment, comment_body, closed_comment,
  operator, operator_of, first_op, between, finish,
}
use tiny_cplus.Compiler.Lexer.Read.{Room}
use tiny_cplus.Compiler.Lexer.Whole.{Lexed, AllStand, lex_lem, lex-AllStand}

abbrev granted : ℕ → Bool
granted n = true

abbrev none_there : Tokens
none_there = record { list = []; capacity = 0 }

none_there-Room : Room none_there
none_there-Room = (omega arith, omega arith)

-- a /* newline */ >>= 0x1F
abbrev source : List ℕ
source = 97 ∷ 32 ∷ 47 ∷ 42 ∷ 10 ∷ 42 ∷ 47 ∷ 62 ∷ 62 ∷ 61 ∷ 48 ∷ 120 ∷ 49 ∷ 70 ∷ []

abbrev token : TokenKind → List ℕ → ℕ → ℕ → Token
token k text line col = record { kind = k; text = text; loc = record { line = line; col = col } }

test_source :
    lex granted none_there source
    ≡ ok (record {
      list =
          token id (97 ∷ []) 1 1
          ∷ token op (62 ∷ 62 ∷ 61 ∷ []) 2 3
          ∷ token int (48 ∷ 120 ∷ 49 ∷ 70 ∷ []) 2 6
          ∷ token eof [] 2 10
          ∷ [];
      capacity = 256;
    })
unfolding lex lex_body start starts scan take_in push run forward span tick comment comment_body
    closed_comment operator operator_of first_op number hexadecimal number_part unsuffixed between
    finish holds
test_source = refl

test_comment :
    lex granted none_there (10 ∷ 47 ∷ 42 ∷ 47 ∷ 42 ∷ 42 ∷ 47 ∷ [])
    ≡ error (record { line = 2; col = 1 }) unterminated_comment
unfolding lex lex_body start starts scan take_in tick comment comment_body forward closed_comment
test_comment = refl

lex_lem_example : Ends (Lexed (start source) none_there) (lex granted none_there source)
lex_lem_example = lex_lem granted none_there source none_there-Room

lex-AllStand_example :
    Ends
      (λ out.
        (new : List Token) × (out.list ≡ none_there.list ++ new) × AllStand (start source) new)
      (lex granted none_there source)
lex-AllStand_example = lex-AllStand granted none_there source none_there-Room
