-- ===== src/Compiler/Front.antt =====
-- compiler/main.c: `lex` and then `parse`, on a new context, as for the dump of the syntax tree.
use tiny_cplus.Prelude.{
  ℕ, ◌≡◌, refl, sym, ap, Bool, true, false, ◌||◌, List, [], ◌∷◌, ◌++◌, ◌==◌, ==_iff, arith,
  Bool-cases, inl, inr,
}
use mathlib.Core.Path.{subst}
use tiny_cplus.Prelude.Text.{same}
use tiny_cplus.Compiler.Loop.{Loc, Result, and_then, Ends, Ends-and_then, Ends-le}
use tiny_cplus.Compiler.Lexer.{Token, TokenKind, eof, id, op, starts, Cursor}
use tiny_cplus.Compiler.Lexer.Moves.{Kind}
use tiny_cplus.Compiler.Lexer.Read.{Reads, none_yet, pass, next}
use tiny_cplus.Compiler.Lexer.Scan.{Tokens, start, lex}
use tiny_cplus.Compiler.Lexer.Whole.{Lexed, Stands, AllStand, AllStand-Reads, lex_lem}
use tiny_cplus.Compiler.Types.{Table}
use tiny_cplus.Compiler.Types.Closed.{function_name}
use tiny_cplus.Compiler.Parser.{State, is_token}
use tiny_cplus.Compiler.Parser.Tree.{Node}
use tiny_cplus.Compiler.Parser.Ahead.{occurs}
use tiny_cplus.Compiler.Parser.Program.{parse}
use tiny_cplus.Compiler.Parser.Runs.{WellEnded}
use tiny_cplus.Compiler.Parser.Whole.{Parsed, parse_lem}

-- A new context: calloc clears it.
abbrev pub no_tokens : Tokens
no_tokens = record { list = []; capacity = 0 }

abbrev pub no_types : Table
no_types = record { types = []; builtin = []; next_id = 0 }

unfoldable pub syntax_tree : (ℕ → Bool) → List ℕ → Result (Node × State)
syntax_tree realloc source =
    and_then (lex realloc no_tokens source)
      (λ out. parse (record { rest = out.list; depth = 0; table = no_types }))

-- A text that is somewhere in another occurs in it.
starts-same : (u v w : List ℕ) → same u w ≡ true → starts w (u ++ v) ≡ true
unfolding same starts
starts-same [] v [] h = refl
starts-same [] v (y ∷ w) h = absurd (cc h)
starts-same (x ∷ u) v [] h = absurd (cc h)
starts-same (x ∷ u) v (y ∷ w) h =
    let e : (x == y) ≡ true = grind arith in
    let f : same u w ≡ true = grind arith in
    rw ((==_iff y x).1 (sym ((==_iff x y).0 e)), starts-same u v w f) refl

occurs-starts : (w s : List ℕ) → starts w s ≡ true → occurs w s ≡ true
unfolding occurs
occurs-starts w [] h = h
occurs-starts w (b ∷ bs) h = rw h refl

occurs-same : (ahead u v w : List ℕ) → same u w ≡ true → occurs w (ahead ++ (u ++ v)) ≡ true
unfolding occurs
occurs-same [] u v w h = occurs-starts w (u ++ v) (starts-same u v w h)
occurs-same (a ∷ ahead) u v w h =
    rw (occurs-same ahead u v w h)
      (elim (starts w (a ∷ (ahead ++ (u ++ v)))) as (λ b. (b || true) ≡ true) [
        | true ↦ refl
        | false ↦ refl
      ])

-- A token as the parser wants them before the last.
record Inner (t : Token) : Type 0 where
  pub not_end : is_token t.kind eof ≡ false
  pub not_function : same t.text function_name ≡ false

abbrev AllInner : List Token → Type 0
AllInner [] = Unit
AllInner (t ∷ ts) = Inner t × AllInner ts

WellEnded-append :
    (ts : List Token) (l : Loc)
    → AllInner ts
    → WellEnded (ts ++ record { kind = eof; text = []; loc = l } ∷ [])
WellEnded-append [] l h = (refl, refl)
WellEnded-append (t ∷ []) l (h, k) = (h.not_end, h.not_function, (refl, refl))
WellEnded-append (t ∷ u ∷ ts) l (h, k) = (h.not_end, h.not_function, WellEnded-append (u ∷ ts) l k)

-- No token but the last is of the last's kind.
abbrev AllKind : List Token → Type 0
AllKind [] = Unit
AllKind (t ∷ ts) = (is_token t.kind eof ≡ false) × AllKind ts

AllKind-append :
    (ts : List Token) (t : Token)
    → AllKind ts
    → is_token t.kind eof ≡ false
    → AllKind (ts ++ t ∷ [])
AllKind-append [] t h k = (k, tt)
AllKind-append (u ∷ ts) t h k = (h.0, AllKind-append ts t h.1 k)

is_token-Kind : (k : TokenKind) (x : ℕ) → Kind k x → is_token k eof ≡ false
is_token-Kind eof x h = absurd h
is_token-Kind id x h = refl
is_token-Kind TokenKind.int x h = refl
is_token-Kind TokenKind.float x h = refl
is_token-Kind TokenKind.string x h = refl
is_token-Kind TokenKind.char x h = refl
is_token-Kind op x h = refl

AllKind-Reads : {s c : Cursor} {ts : List Token} → Reads s ts c → AllKind ts
AllKind-Reads none_yet = tt
AllKind-Reads (pass r h) = AllKind-Reads r
AllKind-Reads (next {ts = ts} {c = c} k r m h e) =
    AllKind-append ts _ (AllKind-Reads r) (is_token-Kind k _ h)

not_function-Stands :
    (s : Cursor) (t : Token)
    → occurs function_name s.rest ≡ false
    → Stands s t
    → same t.text function_name ≡ false
not_function-Stands s t h st = elim (Bool-cases (same t.text function_name)) [
  | inl e ↦ absurd (
      cc (
        ap (occurs function_name) st.split,
        occurs-same st.ahead t.text st.after function_name e,
        h,
      ))
  | inr e ↦ e
]

AllInner-both :
    (s : Cursor) (ts : List Token)
    → occurs function_name s.rest ≡ false
    → AllKind ts
    → AllStand s ts
    → AllInner ts
AllInner-both s [] h k st = tt
AllInner-both s (t ∷ ts) h k st = (
  record { not_end = k.0; not_function = not_function-Stands s t h st.0 },
  AllInner-both s ts h k.1 st.1,
)

abbrev pub empty_state : State
empty_state = record { rest = []; depth = 0; table = no_types }

-- On every source, read from behind its byte order mark, in which the name "Function" does not occur,
-- `lex` and then `parse` on a new context end: with an error of one of them, or with a tree for
-- which all the tokens were read, the nesting closed, and a sound table of types.
pub syntax_tree_lem :
    (realloc : ℕ → Bool) (source : List ℕ)
    → occurs function_name (start source).rest ≡ false
    → Ends (Parsed empty_state) (syntax_tree realloc source)
unfolding syntax_tree
syntax_tree_lem realloc source h =
    Ends-and_then (Lexed (start source) no_tokens) (Parsed empty_state)
      (lex realloc no_tokens source) _ (lex_lem realloc no_tokens source (omega arith, omega arith))
      (λ out l.
        let s : State = record { rest = out.list; depth = 0; table = no_types } in
        Ends-le (Parsed s) (Parsed empty_state) (parse s)
          (λ q p. record { sound = p.sound; same_depth = p.same_depth; read = p.read })
          (parse_lem s
            (subst WellEnded (sym l.all) (
              WellEnded-append l.new _ (
                AllInner-both (start source) l.new h (AllKind-Reads l.reads)
                  (AllStand-Reads l.reads))))
            (record { closed = tt; builtin_below = tt })))
