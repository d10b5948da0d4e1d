-- ===== src/Compiler/Lexer/Comments.antt =====
-- Block comments: their loop ends where the outermost one is closed, or at the end of the file.
use tiny_cplus.Prelude.{
  ℕ, suc, ◌<◌, ◌≡◌, ◌≢◌, refl, ap, ◌∙◌, true, ◌&&◌, ◌||◌, List, [], ◌∷◌, ◌==◌, length, arith, ◌⊎◌,
  inl, inr, if_cases,
}
use mathlib.Core.Path.{subst}
use tiny_cplus.Compiler.Loop.{Loc, iterate, Ends, Ends-and_then, Ends-iterate, Ends-le, Next}
use tiny_cplus.Compiler.Lexer.{Cursor, byte, forward, tick}
use tiny_cplus.Compiler.Lexer.Moves.{
  Moves, Moves-refl, Moves-trans, Moves-le, Moves-two, Moves-tick, shorter,
}
use tiny_cplus.Compiler.Lexer.Skipped.{
  Nesting, Nesting-opens, Nesting-closes, Nesting-other, after_two, after_tick, Closes, all_closed,
  block_comment,
}
use tiny_cplus.Compiler.Lexer.Rounds.{Finds}
use tiny_cplus.Compiler.Lexer.Scan.{comment_body, closed_comment, comment}

-- A round takes a byte, or ends the loop, and keeps the nesting.
abbrev Within : List ℕ → Cursor × ℕ → (Cursor × ℕ) ⊎ (Cursor × ℕ) → Type 0
Within s p (inl q) = Moves 1 p.0 q.0 × (Nesting s p → Nesting s q)
Within s p (inr q) = Moves 0 p.0 q.0 × (Nesting s p → Nesting s q)

Within-comment_body :
    (s : List ℕ) (c : Cursor) (n : ℕ) → Ends (Within s (c, n)) (comment_body (c, n))
unfolding comment_body
Within-comment_body s c n =
    let P = Ends (Within s (c, n)) in
    if_cases P (byte c 0 == 0 || n == 0) (λ a. (Moves-refl c, λ k. k))
      (λ a.
        let some_left : n ≢ 0 = ground arith in
        let some_byte : byte c 0 ≢ 0 = ground arith in
        if_cases P (byte c 0 == 47 && byte c 1 == 42)
          (λ b. (
            Moves-le (omega arith)
                (Moves-two c some_byte (ground arith) (ground arith) (ground arith)),
            Nesting-opens s c (forward 2 c) n some_left
                (after_two c 47 42 (ground arith) (ground arith) (omega arith) (omega arith)),
          ))
          (λ b.
            if_cases P (byte c 0 == 42 && byte c 1 == 47)
              (λ e. (
                Moves-le (omega arith)
                    (Moves-two c some_byte (ground arith) (ground arith) (ground arith)),
                Nesting-closes s c (forward 2 c) n some_left
                    (after_two c 42 47 (ground arith) (ground arith) (omega arith) (omega arith)),
              ))
              (λ e. (
                Moves-tick c some_byte,
                Nesting-other s c (tick c) n some_left some_byte b e (after_tick c some_byte),
              ))))

-- The loop from a cursor on
Kept : Cursor → Cursor × ℕ → Type 0
Kept c p = Moves 0 c p.0 × Nesting c.rest p

Kept-Next :
    (c : Cursor) (a : Cursor × ℕ)
    → Kept c a
    → (r : (Cursor × ℕ) ⊎ (Cursor × ℕ)) → Within c.rest a r
    → Next (λ b. length b.0.rest) (Kept c) (Kept c) a r
unfolding Kept
Kept-Next c a (m, k) (inl b) (l, f) =
    (omega (arith, shorter l), (Moves-le (omega arith) (Moves-trans m l), f k))
Kept-Next c a (m, k) (inr b) (l, f) = (Moves-trans m l, f k)

Kept-loop : (c : Cursor) (n : ℕ) → length c.rest < n → Ends (Kept c) (iterate comment_body n (c, 1))
unfolding Kept
Kept-loop c n less =
    Ends-iterate (λ (b : Cursor × ℕ). length b.0.rest) (Kept c) (Kept c) comment_body
      (λ b k.
        Ends-le (Within c.rest b) (Next (λ (d : Cursor × ℕ). length d.0.rest) (Kept c) (Kept c) b)
          (comment_body b) (Kept-Next c b k) (Within-comment_body c.rest b.0 b.1))
      n (c, 1) less (Moves-refl c, λ text rest a e. (text, a, e))

zero_level : (n : ℕ) → (n == 0) ≡ true → 0 ≡ n
zero_level n h = ground arith

pub Finds-comment :
    (l : Loc) (c : Cursor) → byte c 0 ≡ 47 → byte c 1 ≡ 42 → Ends (Finds c) (comment l c)
unfolding comment closed_comment Kept
Finds-comment l c h k =
    let m : Moves 2 c (forward 2 c) =
      Moves-two c (ground arith) (ground arith) (ground arith) (ground arith) in
    let begins = after_two c 47 42 h k (omega arith) (omega arith) in
    Ends-and_then (Kept (forward 2 c)) (Finds c)
      (iterate comment_body (suc (length c.rest)) (forward 2 c, 1)) (closed_comment l)
      (Kept-loop (forward 2 c) (suc (length c.rest)) (omega (arith, shorter m)))
      (λ p a.
        if_cases (Ends (Finds c)) (p.1 == 0)
          (λ z.
            let (text, closed, e) =
              a.1 [] p.0.rest (subst (λ n. Closes n []) (zero_level p.1 z) all_closed) refl in
            (
              Moves-le (omega arith) (Moves-trans m a.0),
              block_comment text (begins ∙ ap (λ r. 47 ∷ 42 ∷ r) e) closed,
            ))
          (λ _. tt))
