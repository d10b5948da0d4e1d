-- ===== src/Compiler/Lexer/Whole.antt =====
-- The loop of `lex`, and what it leaves.
use tiny_cplus.Prelude.{
  ℕ, suc, ◌<◌, ◌≡◌, sym, ap, ◌∙◌, Bool, List, [], ◌∷◌, ◌++◌, append-nil, append_assoc, length, drop,
  length-drop, ◌==◌, if_cases, arith,
}
use tiny_cplus.Compiler.Loop.{and_then, iterate, Ends, Ends-and_then, Ends-iterate, Ends-le, Next}
use tiny_cplus.Compiler.Lexer.{Token, TokenKind, eof, starts, Cursor, byte, loc}
use tiny_cplus.Compiler.Lexer.Moves.{Moves, Moves-refl, Moves-trans, Moves-le, place, locate}
use tiny_cplus.Compiler.Lexer.Rounds.{Finds}
use tiny_cplus.Compiler.Lexer.Operators.{Finds-scan}
use tiny_cplus.Compiler.Lexer.Scan.{
  scan, Tokens, push, take_in, carry_on, lex_body, start, mark, finish, lex,
}
use tiny_cplus.Compiler.Lexer.Read.{
  Reads, none_yet, pass, next, Room, Room-push, Reached, Onwards, Onwards-take_in,
}

-- The loop ends at the zero behind the file.
abbrev AtZero : Cursor → Tokens → Cursor × Tokens → Type 0
AtZero s us b = (byte b.0 0 ≡ 0) × Reached s us b

Next-lex_body :
    (realloc : ℕ → Bool) (s : Cursor) (us : Tokens) (a : Cursor × Tokens)
    → Reached s us a
    → Ends (Next (λ b. length b.0.rest) (Reached s us) (AtZero s us) a) (lex_body realloc a)
unfolding lex_body
Next-lex_body realloc s us (c, ts) r =
    let Q = Next (λ (b : Cursor × Tokens). length b.0.rest) (Reached s us) (AtZero s us) (c, ts) in
    if_cases (Ends Q) (byte c 0 == 0) (λ e. (ground arith, r))
      (λ e.
        Ends-and_then (Onwards s us (c, ts)) Q (and_then (scan c) (take_in realloc ts c)) carry_on
          (Ends-and_then (Finds c) (Onwards s us (c, ts)) (scan c) (take_in realloc ts c)
            (Finds-scan c (ground arith)) (λ f h. Onwards-take_in realloc s us (c, ts) f r h))
          (λ b h. h))

Ends-lex_loop :
    (realloc : ℕ → Bool) (s : Cursor) (us : Tokens) (n : ℕ)
    → Room us
    → length s.rest < n
    → Ends (AtZero s us) (iterate (lex_body realloc) n (s, us))
Ends-lex_loop realloc s us n room less =
    Ends-iterate (λ b. length b.0.rest) (Reached s us) (AtZero s us) (lex_body realloc)
      (Next-lex_body realloc s us) n (s, us) less
      (record { new = []; reads = none_yet; all = sym (append-nil us.list); room = room })

-- What `lex` leaves: the tokens up to the end of the source, and the end's.
pub record Lexed (s : Cursor) (us out : Tokens) : Type 0 where
  pub new : List Token
  pub end : Cursor
  pub reads : Reads s new end
  pub at_zero : byte end 0 ≡ 0
  pub all : out.list ≡ us.list ++ (new ++ record { kind = eof; text = []; loc = loc end } ∷ [])
  pub room : Room out

Lexed-finish :
    (realloc : ℕ → Bool) (s : Cursor) (us : Tokens) (a : Cursor × Tokens)
    → AtZero s us a
    → Ends (Lexed s us) (finish realloc a)
unfolding finish
Lexed-finish realloc s us (c, ts) (z, r) =
    let t : Token = record { kind = eof; text = []; loc = loc c } in
    Ends-le (λ vs. (vs.list ≡ ts.list ++ t ∷ []) × Room vs) (Lexed s us) (push realloc ts t)
      (λ vs v. record {
        new = r.new;
        end = c;
        reads = r.reads;
        at_zero = z;
        all = v.0 ∙ ap (λ l. l ++ t ∷ []) r.all ∙ append_assoc us.list r.new (t ∷ []);
        room = v.1;
      })
      (Room-push realloc ts t r.room)

length-start : (s : List ℕ) → length (start s).rest < suc (length s)
unfolding start
length-start s =
    if_cases (λ l. length l < suc (length s)) (starts mark s) {x = drop 3 s} {y = s}
      (λ _. omega (arith, length-drop 3 s)) (λ _. omega arith)

-- `lex` ends on every source: with one of its errors, or with tokens that read the source from
-- behind its byte order mark to its end, behind those that were there. What lies between two tokens
-- is a row of blanks, of line comments, from two slashes up to a newline or the end, and of block
-- comments, which nest and end where the outermost one is closed. Each token has the bytes of the
-- source that it covers and the line and the column where they begin, its kind is that of its first
-- byte, and no letter or digit follows a name, and no letter a number. The number of tokens stays
-- within the block.
pub lex_lem :
    (realloc : ℕ → Bool) (us : Tokens) (s : List ℕ)
    → Room us
    → Ends (Lexed (start s) us) (lex realloc us s)
unfolding lex
lex_lem realloc us s room =
    Ends-and_then (AtZero (start s) us) (Lexed (start s) us)
      (iterate (lex_body realloc) (suc (length s)) (start s, us)) (finish realloc)
      (Ends-lex_loop realloc (start s) us (suc (length s)) room (length-start s))
      (Lexed-finish realloc (start s) us)

-- A token's bytes and its place in the source.
pub record Stands (s : Cursor) (t : Token) : Type 0 where
  pub ahead : List ℕ
  pub after : List ℕ
  pub split : s.rest ≡ ahead ++ (t.text ++ after)
  pub located : locate ahead (place s) ≡ (t.loc.line, t.loc.col)

abbrev pub AllStand : Cursor → List Token → Type 0
AllStand s [] = Unit
AllStand s (t ∷ ts) = Stands s t × AllStand s ts

AllStand-append :
    (s : Cursor) (ts : List Token) (t : Token)
    → AllStand s ts
    → Stands s t
    → AllStand s (ts ++ t ∷ [])
AllStand-append s [] t a b = (b, tt)
AllStand-append s (u ∷ ts) t a b = (a.0, AllStand-append s ts t a.1 b)

Moves-Reads : {s c : Cursor} {ts : List Token} → Reads s ts c → Moves 0 s c
Moves-Reads {s} none_yet = Moves-refl s
Moves-Reads (pass r h) = Moves-le (omega arith) (Moves-trans (Moves-Reads r) h.0)
Moves-Reads (next k r m h e) = Moves-le (omega arith) (Moves-trans (Moves-Reads r) m)

Stands-moved :
    {n : ℕ} {s c d : Cursor} (k : TokenKind)
    → Moves 0 s c
    → (m : Moves n c d) → Stands s (record { kind = k; text = m.text; loc = loc c })
Stands-moved {d = d} k a m = record {
  ahead = a.text;
  after = d.rest;
  split = a.split ∙ ap (λ r. a.text ++ r) m.split;
  located = a.located;
}

pub AllStand-Reads : {s c : Cursor} {ts : List Token} → Reads s ts c → AllStand s ts
AllStand-Reads none_yet = tt
AllStand-Reads (pass r h) = AllStand-Reads r
AllStand-Reads {s} (next {ts = ts} k r m h e) =
    AllStand-append s ts _ (AllStand-Reads r) (Stands-moved k (Moves-Reads r) m)

-- If `lex` succeeds, every token that it adds, the last one included, stands in the source, read
-- from behind its byte order mark, with its bytes at the place that its line and its column say:
-- a newline begins a line, and every other byte is a column.
pub lex-AllStand :
    (realloc : ℕ → Bool) (us : Tokens) (s : List ℕ)
    → Room us
    → Ends
        (λ out. (new : List Token) × (out.list ≡ us.list ++ new) × AllStand (start s) new)
        (lex realloc us s)
lex-AllStand realloc us s room =
    Ends-le (Lexed (start s) us)
      (λ (out : Tokens). (new : List Token) × (out.list ≡ us.list ++ new) × AllStand (start s) new)
      (lex realloc us s)
      (λ out x.
        let m = Moves-Reads x.reads in
        let t : Token = record { kind = eof; text = []; loc = loc x.end } in
        (
          x.new ++ t ∷ [],
          x.all,
          AllStand-append (start s) x.new t (AllStand-Reads x.reads)
              (record { ahead = m.text; after = x.end.rest; split = m.split; located = m.located }),
        ))
      (lex_lem realloc us s room)
