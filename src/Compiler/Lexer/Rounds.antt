-- ===== src/Compiler/Lexer/Rounds.antt =====
-- Literals: their loops end, having moved the cursor forward.
use tiny_cplus.Prelude.{
  ℕ, suc, ◌<◌, ◌≡◌, ◌≢◌, false, not, ◌&&◌, ◌||◌, ◌==◌, length, arith, ◌⊎◌, inl, inr, if_cases,
}
use tiny_cplus.Compiler.Loop.{
  Loc, Result, iterate, Ends, Ends-and_then, Ends-iterate, Ends-le, Next,
}
use tiny_cplus.Compiler.Lexer.{Cursor, byte, forward, is_xdigit, holds, escapes}
use tiny_cplus.Compiler.Lexer.Moves.{
  Moves, Kind, Ended, Moves-refl, Moves-trans, Moves-le, Moves-one, Moves-two, shorter,
  byte-forward,
}
use tiny_cplus.Compiler.Lexer.Numbers.{Lexes}
use tiny_cplus.Compiler.Lexer.Literal.{Counted, escape, literal_body, closed_literal, literal}
use tiny_cplus.Compiler.Lexer.Skipped.{Skipped}
use tiny_cplus.Compiler.Lexer.Scan.{Found, blank, lexeme}

module _ {ℓ} {X : Type ℓ} (R : Cursor × X → Type 0) where
  -- A round takes a byte, or ends the loop with `R`.
  abbrev pub Rounds : Cursor → (Cursor × X) ⊎ (Cursor × X) → Type 0
  Rounds c (inl (d, x)) = Moves 1 c d
  Rounds c (inr p) = Moves 0 c p.0 × R p

  abbrev pub Arrives : Cursor → Cursor × X → Type 0
  Arrives c p = Moves 0 c p.0 × R p

  Next-Rounds :
      (c : Cursor) (a : Cursor × X)
      → Moves 0 c a.0
      → (s : (Cursor × X) ⊎ (Cursor × X)) → Rounds a.0 s
      → Next (λ b. length b.0.rest) (λ b. Moves 0 c b.0) (Arrives c) a s
  Next-Rounds c a m (inl b) r = (omega (arith, shorter r), Moves-le (omega arith) (Moves-trans m r))
  Next-Rounds c a m (inr b) r = (Moves-trans m r.0, r.1)

  pub Ends-loop :
      (body : Cursor × X → Result ((Cursor × X) ⊎ (Cursor × X)))
      → ((c : Cursor) (x : X) → Ends (Rounds c) (body (c, x)))
      → (n : ℕ) (a : Cursor × X) → length a.0.rest < n
      → Ends (Arrives a.0) (iterate body n a)
  Ends-loop body h n a less =
      let P : Cursor × X → Type 0 = λ b. Moves 0 a.0 b.0 in
      Ends-iterate (λ b. length b.0.rest) P (Arrives a.0) body
        (λ b m.
          Ends-le (Rounds b.0) (Next (λ d. length d.0.rest) P (Arrives a.0) b) (body b)
            (Next-Rounds a.0 b m) (h b.0 b.1))
        n a less (Moves-refl a.0)

-- The loop of a literal ends at the quote or at the end of the file.
abbrev AtQuote : ℕ → Counted → Type 0
AtQuote quote (c, count) = (byte c 0 ≡ 0) ⊎ (byte c 0 ≡ quote)

escapes-plain : (b : ℕ) → not (holds escapes b) ≡ false → b ≢ 10
unfolding holds
escapes-plain b h = ground arith

Rounds-escape :
    (l : Loc) (quote : ℕ) (c : Cursor) (count : ℕ)
    → byte c 0 ≡ 92
    → Ends (Rounds (AtQuote quote) c) (escape l c count)
unfolding escape
Rounds-escape l quote c count h =
    let P = Ends (Rounds (AtQuote quote) c) in
    let d = forward 1 c in
    let m : Moves 1 c d = Moves-one c (ground arith) (ground arith) in
    if_cases P (byte d 0 == 0) (λ a. (Moves-le (omega arith) m, inl (ground arith)))
      (λ a.
        if_cases P (byte d 0 == 120)
          (λ b.
            if_cases P (not (is_xdigit (byte d 1)) || not (is_xdigit (byte d 2))) (λ e. tt)
              (λ e. Moves-le (omega arith) (
                Moves-trans m (
                  Moves-trans
                    (Moves-two d (ground arith) (ground arith) (ground arith) (ground arith))
                    (Moves-one (forward 2 d) (ground (arith, byte-forward 2 d))
                      (ground (arith, byte-forward 2 d)))))))
          (λ b.
            if_cases P (not (holds escapes (byte d 0))) (λ e. tt)
              (λ e.
                Moves-le (omega arith)
                  (Moves-trans m (Moves-one d (ground arith) (escapes-plain (byte d 0) e))))))

Rounds-literal :
    (l : Loc) (quote : ℕ) (c : Cursor) (count : ℕ)
    → Ends (Rounds (AtQuote quote) c) (literal_body l quote (c, count))
unfolding literal_body
Rounds-literal l quote c count =
    let P = Ends (Rounds (AtQuote quote) c) in
    if_cases P (byte c 0 == 0 || byte c 0 == quote) (λ a. (Moves-refl c, ground arith))
      (λ a.
        if_cases P (byte c 0 == 10 || byte c 0 == 13) (λ b. tt)
          (λ b.
            if_cases P (byte c 0 == 92) (λ e. Rounds-escape l quote c count (ground arith))
              (λ e. Moves-one c (ground arith) (ground arith))))

Lexes-closed_literal :
    (l : Loc) (c : Cursor) (p : Counted)
    → (byte c 0 ≡ 34) ⊎ (byte c 0 ≡ 39)
    → Moves 1 c p.0 × AtQuote (byte c 0) p
    → Ends (Lexes c) (closed_literal l (byte c 0) p)
unfolding closed_literal
Lexes-closed_literal l c p h (m, q) =
    let quote = byte c 0 in
    let P = Ends (Lexes c) in
    if_cases P (byte p.0 0 == 0) (λ a. tt)
      (λ a.
        if_cases P (quote == 39 && not (p.1 == 1)) (λ b. tt)
          (λ b. (
            Moves-le (omega arith) (Moves-trans m (Moves-one p.0 (ground arith) (ground arith))),
            if_cases (λ k. Kind k quote) (quote == 34) (λ e. ground arith) (λ e. ground arith),
            if_cases (λ k. Ended k (byte (forward 1 p.0) 0)) (quote == 34) (λ _. tt) (λ _. tt),
          )))

pub Lexes-literal :
    (l : Loc) (c : Cursor) → (byte c 0 ≡ 34) ⊎ (byte c 0 ≡ 39) → Ends (Lexes c) (literal l c)
unfolding literal
Lexes-literal l c h =
    let quote = byte c 0 in
    let m : Moves 1 c (forward 1 c) = Moves-one c (ground arith) (ground arith) in
    Ends-and_then (Arrives (AtQuote quote) (forward 1 c)) (Lexes c)
      (iterate (literal_body l quote) (suc (length c.rest)) (forward 1 c, 0))
      (closed_literal l quote)
      (Ends-loop (AtQuote quote) (literal_body l quote) (Rounds-literal l quote)
        (suc (length c.rest)) (forward 1 c, 0) (omega (arith, shorter m)))
      (λ p a. Lexes-closed_literal l c p h (Moves-trans m a.0, a.1))

-- A blank or a comment, of a byte at least.
abbrev pub Skips : Cursor → Cursor → Type 0
Skips c d = Moves 1 c d × Skipped c d

abbrev pub Finds : Cursor → Found → Type 0
Finds c (blank d) = Skips c d
Finds c (lexeme k d) = Lexes c (k, d)
