-- ===== src/Compiler/Lexer/Read.antt =====
-- The tokens of a source, and how one round of `lex` adds to them.
use tiny_cplus.Prelude.{
  ℕ, ◌+◌, ◌-◌, ◌*◌, ◌≤◌, ◌<◌, ◌≡◌, refl, ap, ◌∙◌, Bool, not, List, [], ◌∷◌, ◌++◌, append_assoc,
  length, length-append, take, take-append, ltb, ◌==◌, if◌then◌else◌, if_cases, arith,
}
use tiny_cplus.Compiler.Loop.{ok, Ends, Ends-and_then}
use tiny_cplus.Compiler.Lexer.{Token, TokenKind, Cursor, byte, loc}
use tiny_cplus.Compiler.Lexer.Moves.{Moves, Kind, Ended, shorter}
use tiny_cplus.Compiler.Lexer.Rounds.{Skips, Finds}
use tiny_cplus.Compiler.Lexer.Scan.{Found, blank, lexeme, Tokens, push, between, take_in}

-- The tokens from `s` up to a later cursor: between them are blanks and comments only, each has
-- the bytes of the source from where it begins to where it ends, and its place.
pub data Reads (s : Cursor) : List Token → Cursor → Type 0 where
  none_yet : Reads s [] s
  pass : {ts : List Token} {c d : Cursor} → Reads s ts c → Skips c d → Reads s ts d
  next :
      {ts : List Token} {c d : Cursor} (k : TokenKind)
      → Reads s ts c
      → (m : Moves 1 c d) → Kind k (byte c 0)
      → Ended k (byte d 0)
      → Reads s (ts ++ record { kind = k; text = m.text; loc = loc c } ∷ []) d

-- Every index below the number of tokens is in the block, and the block is bounded.
abbrev pub Room : Tokens → Type 0
Room ts = (length ts.list ≤ ts.capacity) × (ts.capacity ≤ 2000000)

pub Room-push :
    (realloc : ℕ → Bool) (ts : Tokens) (t : Token)
    → Room ts
    → Ends (λ us. (us.list ≡ ts.list ++ t ∷ []) × Room us) (push realloc ts t)
unfolding push
Room-push realloc ts t (h, k) =
    let P = Ends (λ (us : Tokens). (us.list ≡ ts.list ++ t ∷ []) × Room us) in
    let more : length (ts.list ++ t ∷ []) ≡ length ts.list + 1 = length-append ts.list (t ∷ []) in
    let cap = (if ts.capacity == 0 then 256 else ts.capacity * 2) in
    if_cases P (length ts.list == ts.capacity)
      (λ a.
        if_cases P (ltb 2000000 cap) (λ _. tt)
          (λ b.
            if_cases P (not (realloc (cap * 32))) (λ _. tt)
              (λ _. (refl, (ground (arith, more), ground arith)))))
      (λ a. (refl, (ground (arith, more), k)))

between-text : {n : ℕ} {c d : Cursor} (m : Moves n c d) → between c d ≡ m.text
unfolding between
between-text {c = c} {d = d} m =
    ap (λ r. take (length r - length d.rest) r) m.split
    ∙ take-append m.text d.rest (length (m.text ++ d.rest) - length d.rest)
        (omega (arith, length-append m.text d.rest))

-- The loop's state: the tokens so far and the room for them.
pub record Reached (s : Cursor) (us : Tokens) (a : Cursor × Tokens) : Type 0 where
  pub new : List Token
  pub reads : Reads s new a.0
  pub all : a.1.list ≡ us.list ++ new
  pub room : Room a.1

abbrev pub Onwards : Cursor → Tokens → Cursor × Tokens → Cursor × Tokens → Type 0
Onwards s us a b = (length b.0.rest < length a.0.rest) × Reached s us b

pub Onwards-take_in :
    (realloc : ℕ → Bool) (s : Cursor) (us : Tokens) (a : Cursor × Tokens) (f : Found)
    → Reached s us a
    → Finds a.0 f
    → Ends (Onwards s us a) (take_in realloc a.1 a.0 f)
unfolding take_in
Onwards-take_in realloc s us (c, ts) (blank d) r h = (
  omega (arith, shorter h.0),
  record { new = r.new; reads = pass r.reads h; all = r.all; room = r.room },
)
Onwards-take_in realloc s us (c, ts) (lexeme k d) r (m, h, e) =
    let t : Token = record { kind = k; text = between c d; loc = loc c } in
    Ends-and_then (λ vs. (vs.list ≡ ts.list ++ t ∷ []) × Room vs) (Onwards s us (c, ts))
      (push realloc ts t) (λ vs. ok (d, vs)) (Room-push realloc ts t r.room)
      (λ vs v. (
        omega (arith, shorter m),
        record {
          new = r.new ++ record { kind = k; text = m.text; loc = loc c } ∷ [];
          reads = next k r.reads m h e;
          all =
              v.0
              ∙ ap (λ l. l ++ t ∷ []) r.all
              ∙ append_assoc us.list r.new (t ∷ [])
              ∙ ap (λ x. us.list ++ (r.new ++ record { kind = k; text = x; loc = loc c } ∷ []))
                  (between-text m);
          room = v.1;
        },
      ))
