-- ===== src/Compiler/Lexer/Numbers.antt =====
-- Numbers: each part of the lexer ends, having moved the cursor forward.
use tiny_cplus.Prelude.{
  ℕ, ◌≡◌, refl, sym, true, false, not, ◌&&◌, ◌||◌, ◌==◌, arith, ◌⊎◌, inl, inr, if_cases,
}
use mathlib.Core.Path.{subst}
use tiny_cplus.Compiler.Loop.{Loc, Ends, Ends-and_then, Ends-le, Ends-both}
use tiny_cplus.Compiler.Lexer.{
  TokenKind, int, float, Cursor, byte, forward, run, is_digit, is_xdigit, is_alpha,
}
use tiny_cplus.Compiler.Lexer.Moves.{
  Moves, Kind, Ended, Moves-refl, Moves-trans, Moves-le, Moves-one, Moves-two, Moves-run,
  Moves-run_first,
}
use tiny_cplus.Compiler.Lexer.Number.{
  hexadecimal, fraction, signed, exponent, decimal, unsuffixed, number_part, number,
}

-- The result of a part that starts at `c`.
abbrev pub Advances {ℓ} : {K : Type ℓ} → ℕ → Cursor → K × Cursor → Type 0
Advances n c (k, d) = Moves n c d

Moves-digit : (c : Cursor) → is_digit (byte c 0) ≡ true → Moves 1 c (run is_digit (forward 1 c))
Moves-digit c h =
    Moves-trans (Moves-one c (ground arith) (ground arith)) (Moves-run is_digit (forward 1 c) refl)

Advances-fraction : (c : Cursor) → Advances 0 c (fraction c)
unfolding fraction
Advances-fraction c =
    if_cases (Advances {K = TokenKind} 0 c) (byte c 0 == 46 && not (byte c 1 == 46))
      (λ h. Moves-le (omega arith) (
        Moves-trans (Moves-one c (ground arith) (ground arith))
          (Moves-run is_digit (forward 1 c) refl)))
      (λ h. Moves-refl c)

Moves-signed : (c : Cursor) → Moves 0 c (signed c)
unfolding signed
Moves-signed c =
    if_cases (Moves 0 c) (byte c 0 == 43 || byte c 0 == 45)
      (λ h. Moves-le (omega arith) (Moves-one c (ground arith) (ground arith))) (λ h. Moves-refl c)

Advances-exponent : (l : Loc) (k : TokenKind) (c : Cursor) → Ends (Advances 0 c) (exponent l (k, c))
unfolding exponent
Advances-exponent l k c =
    if_cases (Ends (Advances {K = TokenKind} 0 c)) (byte c 0 == 101 || byte c 0 == 69)
      (λ h.
        if_cases (Ends (Advances {K = TokenKind} 0 c))
          (not (is_digit (byte (signed (forward 1 c)) 0))) (λ e. tt)
          (λ e. Moves-le (omega arith) (
            Moves-trans (Moves-one c (ground arith) (ground arith)) (
              Moves-trans (Moves-signed (forward 1 c))
                (Moves-run is_digit (signed (forward 1 c)) refl)))))
      (λ h. Moves-refl c)

Advances-hexadecimal :
    (l : Loc) (c : Cursor)
    → byte c 0 ≡ 48
    → (byte c 1 ≡ 120) ⊎ (byte c 1 ≡ 88)
    → Ends (Advances 1 c) (hexadecimal l c)
unfolding hexadecimal
Advances-hexadecimal l c h k =
    if_cases (Ends (Advances {K = TokenKind} 1 c)) (not (is_xdigit (byte (forward 2 c) 0)))
      (λ e. tt)
      (λ e. Moves-le (omega arith) (
        Moves-trans (Moves-two c (ground arith) (ground arith) (ground arith) (ground arith))
          (Moves-run is_xdigit (forward 2 c) refl)))

Advances-decimal :
    (l : Loc) (c : Cursor)
    → is_digit (byte c 0) ≡ true
    → Ends (Advances {K = TokenKind} 1 c) (decimal l c)
unfolding decimal
Advances-decimal l c h =
    let f = fraction (run is_digit c) in
    Ends-le (Advances 0 f.1) (Advances 1 c) (exponent l f)
      (λ p a.
        Moves-trans (Moves-run_first is_digit c refl (ground arith) h)
          (Moves-trans (Advances-fraction (run is_digit c)) a))
      (Advances-exponent l f.0 f.1)

-- No letter follows.
abbrev pub Unsuffixed : Cursor → Cursor → Type 0
Unsuffixed c d = Moves 1 c d × ((is_alpha (byte d 0) || byte d 0 == 95) ≡ false)

Unsuffixed-unsuffixed :
    (l : Loc) (c : Cursor) (p : TokenKind × Cursor)
    → Advances 1 c p
    → Ends (λ q. Unsuffixed c q.1) (unsuffixed l p)
unfolding unsuffixed
Unsuffixed-unsuffixed l c p a =
    if_cases (Ends (λ (q : TokenKind × Cursor). Unsuffixed c q.1))
      (is_alpha (byte p.1 0) || byte p.1 0 == 95) (λ _. tt) (λ e. (a, e))

Advances-number_part :
    (l : Loc) (c : Cursor)
    → is_digit (byte c 0) ≡ true
    → Ends (Advances {K = TokenKind} 1 c) (number_part l c)
unfolding number_part
Advances-number_part l c h =
    if_cases (Ends (Advances {K = TokenKind} 1 c))
      (byte c 0 == 48 && (byte c 1 == 120 || byte c 1 == 88))
      (λ e. Advances-hexadecimal l c (ground arith) (ground arith)) (λ e. Advances-decimal l c h)

Unsuffixed-number :
    (l : Loc) (c : Cursor)
    → is_digit (byte c 0) ≡ true
    → Ends (λ (q : TokenKind × Cursor). Unsuffixed c q.1) (number l c)
unfolding number
Unsuffixed-number l c h =
    Ends-and_then (Advances 1 c) (λ q. Unsuffixed c q.1) (number_part l c) (unsuffixed l)
      (Advances-number_part l c h) (Unsuffixed-unsuffixed l c)

-- A number's kind is one of two.
abbrev IsNumeric : TokenKind × Cursor → Type 0
IsNumeric q = (q.0 ≡ int) ⊎ (q.0 ≡ float)

IsNumeric-fraction : (c : Cursor) → IsNumeric (fraction c)
unfolding fraction
IsNumeric-fraction c =
    if_cases IsNumeric (byte c 0 == 46 && not (byte c 1 == 46)) (λ _. inr refl) (λ _. inl refl)

IsNumeric-exponent :
    (l : Loc) (q : TokenKind × Cursor) → IsNumeric q → Ends IsNumeric (exponent l q)
unfolding exponent
IsNumeric-exponent l (k, c) h =
    let P = Ends IsNumeric in
    if_cases P (byte c 0 == 101 || byte c 0 == 69)
      (λ _. if_cases P (not (is_digit (byte (signed (forward 1 c)) 0))) (λ _. tt) (λ _. inr refl))
      (λ _. h)

IsNumeric-hexadecimal : (l : Loc) (c : Cursor) → Ends IsNumeric (hexadecimal l c)
unfolding hexadecimal
IsNumeric-hexadecimal l c =
    if_cases (Ends IsNumeric) (not (is_xdigit (byte (forward 2 c) 0))) (λ _. tt) (λ _. inl refl)

IsNumeric-number : (l : Loc) (c : Cursor) → Ends IsNumeric (number l c)
unfolding number number_part decimal unsuffixed
IsNumeric-number l c =
    let P = Ends IsNumeric in
    Ends-and_then IsNumeric IsNumeric (number_part l c) (unsuffixed l)
      (if_cases P (byte c 0 == 48 && (byte c 1 == 120 || byte c 1 == 88))
        (λ _. IsNumeric-hexadecimal l c)
        (λ _.
          IsNumeric-exponent l (fraction (run is_digit c)) (IsNumeric-fraction (run is_digit c))))
      (λ q h. if_cases P (is_alpha (byte q.1 0) || byte q.1 0 == 95) (λ _. tt) (λ _. h))

IsNumeric-Kind : (q : TokenKind × Cursor) (x : ℕ) → IsNumeric q → is_digit x ≡ true → Kind q.0 x
IsNumeric-Kind q x (inl e) h = subst (λ k. Kind k x) (sym e) h
IsNumeric-Kind q x (inr e) h = subst (λ k. Kind k x) (sym e) h

IsNumeric-Ended :
    (q : TokenKind × Cursor) (x : ℕ) → IsNumeric q → (is_alpha x || x == 95) ≡ false → Ended q.0 x
IsNumeric-Ended q x (inl e) h = subst (λ k. Ended k x) (sym e) h
IsNumeric-Ended q x (inr e) h = subst (λ k. Ended k x) (sym e) h

-- A token that starts at `c`.
abbrev pub Lexes : Cursor → TokenKind × Cursor → Type 0
Lexes c (k, d) = Moves 1 c d × Kind k (byte c 0) × Ended k (byte d 0)

pub Lexes-number : (l : Loc) (c : Cursor) → is_digit (byte c 0) ≡ true → Ends (Lexes c) (number l c)
Lexes-number l c h =
    Ends-both (λ (q : TokenKind × Cursor). Unsuffixed c q.1) IsNumeric (Lexes c) (number l c)
      (λ q a b. (a.0, IsNumeric-Kind q (byte c 0) b h, IsNumeric-Ended q (byte q.1 0) b a.1))
      (Unsuffixed-number l c h) (IsNumeric-number l c)
