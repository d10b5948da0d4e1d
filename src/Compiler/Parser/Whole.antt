-- ===== src/Compiler/Parser/Whole.antt =====
-- `parse` comes to an end, and reads all the tokens.
use tiny_cplus.Prelude.{
  ℕ, zero, suc, ◌+◌, ◌≤◌, ◌≡◌, refl, true, List, [], ◌∷◌, Option, none, some, if_cases, length,
  get_or, arith,
}
use tiny_cplus.Prelude.Text.{codes}
use tiny_cplus.Compiler.Loop.{
  Result, stuck, error, ok, and_then, Ends, Ends-le, WhenOk, WhenOk-and_then, WhenOk-any, Ends-when,
  Leaves, WhenOk-iterate,
}
use tiny_cplus.Compiler.Lexer.{Token, eof}
use tiny_cplus.Compiler.Types.Closed.{IsSound}
use tiny_cplus.Compiler.Parser.{
  State, Parser, ◌>>=◌, is_token, token_at, nothing, pure, peek, more_or, repeat_round, repeat,
}
use tiny_cplus.Compiler.Parser.Tree.{Node, absent}
use tiny_cplus.Compiler.Parser.TypeName.{Below}
use tiny_cplus.Compiler.Parser.Lambda.{new_node}
use tiny_cplus.Compiler.Parser.Stmt.{word_or}
use tiny_cplus.Compiler.Parser.Program.{
  extern_member, extern_block, program_member, program_round, program_body, declared_ahead, parse,
}
use tiny_cplus.Compiler.Parser.Runs.{WellEnded, IsSoundState, Post, Runs, none_, Any}
use tiny_cplus.Compiler.Parser.TypeRuns.{RunsBelow, Runs-parse_type}
use tiny_cplus.Compiler.Parser.ExprRuns.{Eats-whole}
use tiny_cplus.Compiler.Parser.StmtRuns.{Eats-whole_stmt}
use tiny_cplus.Compiler.Parser.DeclarationRuns.{Eats-declaration}
use tiny_cplus.Compiler.Parser.Parts.{Part, Eats, Rounds, parts}

no_tokens : (ts : List Token) → WellEnded ts → ¬ (length ts ≤ 0)
no_tokens [] w h = w
no_tokens (t ∷ ts) w h = omega arith

-- There is no state without tokens.
Runs-nothing {ℓ} :
    {A : Type ℓ} {n : ℕ} {e : A → ℕ} {V : ℕ → A → Type 0} (m : Parser A) → Runs 0 n e V m
Runs-nothing m = record { run = λ s i less more. absurd (no_tokens s.rest i.tokens less) }

-- Calls as deep as the tokens are enough.
pub RunsBelow-declared_ahead : (k : ℕ) → RunsBelow k (declared_ahead k)
unfolding declared_ahead
RunsBelow-declared_ahead zero = record {
  type_runs = λ n. Runs-nothing _;
  expr_runs = λ n p. Runs-nothing _;
  stmt_runs = λ n. Runs-nothing _;
  declaration_runs = λ n flags owner. Runs-nothing _;
}
RunsBelow-declared_ahead (suc k) =
    let r = declared_ahead k in
    let b = RunsBelow-declared_ahead k in
    record {
      type_runs = λ n. Runs-parse_type r b n;
      expr_runs = λ n p. (Eats-whole r b p).eats_runs n;
      stmt_runs = λ n. (Eats-whole_stmt r b).eats_runs n;
      declaration_runs = λ n flags owner. (Eats-declaration r b flags owner).eats_runs n;
    }

module _ {k : ℕ} (r : Below) (b : RunsBelow k r) where
  Eats-top : (flags : ℕ) → Eats k (r.declaration flags absent)
  Eats-top flags = record { eats_runs = λ n. b.declaration_runs n flags absent }

  Eats-extern_member : (p : Node) → Eats k (extern_member r p)
  unfolding extern_member
  Eats-extern_member p = search (parts, Eats-top)

  Part-extern_block : (p : Node) → Part k (extern_block r p)
  unfolding extern_block
  Part-extern_block p = search (parts, Eats-extern_member) depth 25 fits 5000

  Eats-program_member : (p : Node) → Eats k (program_member r p)
  unfolding program_member
  Eats-program_member p = search (parts, Eats-top)

  Eats-item : (p : Node) → Eats k (word_or (codes "extern") (extern_block r p) (program_member r p))
  unfolding word_or
  Eats-item p = search (parts, Part-extern_block, Eats-program_member) depth 25 fits 5000

  Rounds-program_round : (p : Node) → Rounds k (program_round r p)
  unfolding program_round
  Rounds-program_round p = search (parts, Eats-item) depth 25 fits 5000

  Part-program_body : Part k (program_body r)
  unfolding program_body
  Part-program_body = search (parts, Rounds-program_round) depth 25 fits 5000

abbrev AtEnd : {A : Type 0} → A × State → Type 0
AtEnd r = is_token (token_at 0 r.1).kind eof ≡ true

abbrev Stops : {A : Type 0} → Option A × State → Type 0
Stops (none, s) = AtEnd (tt, s)
Stops (some a, s) = Unit

WhenOk-some : {A : Type 0} (m : Parser A) (s : State) → WhenOk Stops ((m >>= λ a. pure (some a)) s)
unfolding ◌>>=◌ pure
WhenOk-some {A} m s =
    WhenOk-and_then (λ _. Unit) (Stops {A = A}) (m s) (λ r. ok (some r.0, r.1)) (WhenOk-any (m s))
      (λ v _. tt)

WhenOk-program_round : (r : Below) (p : Node) (s : State) → WhenOk Stops (program_round r p s)
unfolding program_round ◌>>=◌ peek pure
WhenOk-program_round r p s =
    if_cases (λ (m : Parser (Option Node)). WhenOk Stops (m s)) (is_token (token_at 0 s).kind eof)
      (λ e. e)
      (λ _. WhenOk-some (word_or (codes "extern") (extern_block r p) (program_member r p)) s)

Leaves-more_or : {A : Type 0} (a : A) (r : Option A × State) → Stops r → Leaves AtEnd (more_or a r)
Leaves-more_or a (none, s) h = h
Leaves-more_or a (some b, s) h = tt

WhenOk-round :
    {A : Type 0} (r : Result (Option A × State)) (a : A)
    → WhenOk Stops r
    → WhenOk (Leaves AtEnd) (and_then r (λ q. ok (more_or a q)))
WhenOk-round stuck a h = tt
WhenOk-round (error l e) a h = tt
WhenOk-round (ok q) a h = Leaves-more_or a q h

-- A loop ends as its rounds end it.
WhenOk-repeat :
    {A : Type 0} (body : A → Parser (Option A))
    → ((a : A) (s : State) → WhenOk Stops (body a s))
    → (a : A) (s : State) → WhenOk AtEnd (repeat body a s)
unfolding repeat repeat_round
WhenOk-repeat {A} body h a s =
    WhenOk-iterate (AtEnd {A = A}) (repeat_round body)
      (λ b. WhenOk-round (body b.0 b.1) b.0 (h b.0 b.1)) (suc (length s.rest)) (a, s)

WhenOk-program_body : (r : Below) (s : State) → WhenOk AtEnd (program_body r s)
unfolding program_body ◌>>=◌ peek new_node
WhenOk-program_body r s =
    WhenOk-repeat (program_round r) (WhenOk-program_round r) _
      (record s { table = record s.table { next_id = s.table.next_id + 1 } })

-- Everything is read, the nesting is closed, and the table of types is sound.
pub record Parsed (s : State) (r : Node × State) : Type 0 where
  pub sound : IsSound r.1.table
  pub same_depth : r.1.depth ≡ s.depth
  pub read : (end : Token) × (is_token end.kind eof ≡ true) × (r.1.rest ≡ end ∷ [])

last_token :
    (ts : List Token)
    → WellEnded ts
    → is_token (get_or ts 0 nothing).kind eof ≡ true
    → (end : Token) × (is_token end.kind eof ≡ true) × (ts ≡ end ∷ [])
last_token [] w h = absurd w
last_token (t ∷ []) w h = (t, h, refl)
last_token (t ∷ u ∷ ts) w h = absurd (cc (w.0, h))

Ends-program_body :
    (s : State) → IsSoundState s → Ends (Parsed s) (program_body (declared_ahead (length s.rest)) s)
unfolding token_at
Ends-program_body s i =
    let k = length s.rest in
    let r = declared_ahead k in
    let body = Part-program_body {k = k} r (RunsBelow-declared_ahead k) in
    Ends-le (λ q. Post s none_ Any q × AtEnd q) (Parsed s) (program_body r s)
      (λ q p. record {
        sound = p.0.sound.table;
        same_depth = p.0.same_depth;
        read = last_token q.1.rest p.0.sound.tokens p.1;
      })
      (Ends-when (Post s none_ Any) AtEnd (program_body r s)
        ((body.part_runs 0).run s i (omega arith) (omega arith)) (WhenOk-program_body r s))

-- `parse` ends on all tokens that end with the end of the file, hold no other and none whose text is
-- "Function", and on every sound table: with one of its errors, or having read all the tokens but
-- the last, at the nesting depth it began with, and with a sound table. It never runs past the last
-- token.
pub parse_lem : (s : State) → WellEnded s.rest → IsSound s.table → Ends (Parsed s) (parse s)
unfolding parse
parse_lem s w h = Ends-program_body s (record { tokens = w; table = h })
