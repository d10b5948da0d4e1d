-- ===== src/Compiler/Lexer/Operators.antt =====
-- Operators, and what one round of `lex` finds.
use mathlib.Core.Path.{subst}
use tiny_cplus.Prelude.{
  ℕ, ◌≤◌, ◌≡◌, ◌≢◌, refl, true, false, ◌&&◌, ◌||◌, List, [], ◌∷◌, Option, none, some, ◌==◌, length,
  get_or, arith, if_cases,
}
use tiny_cplus.Compiler.Loop.{Loc, ok, Ends, Ends-and_then}
use tiny_cplus.Compiler.Lexer.{
  Cursor, byte, loc, forward, run, is_space, is_alpha, is_digit, in_name, id, holds, starts, ops,
  marks,
}
use tiny_cplus.Compiler.Lexer.Moves.{
  Plain, Moves-trans, Moves-le, Moves-one, Moves-forward, Moves-tick, Moves-run, Moves-run_first,
  run-stops,
}
use tiny_cplus.Compiler.Lexer.Numbers.{Lexes, Lexes-number}
use tiny_cplus.Compiler.Lexer.Number.{number}
use tiny_cplus.Compiler.Lexer.Literal.{literal}
use tiny_cplus.Compiler.Lexer.Rounds.{Lexes-literal, Finds}
use tiny_cplus.Compiler.Lexer.Comments.{Finds-comment}
use tiny_cplus.Compiler.Lexer.Skipped.{one_blank, Skipped-line, after_tick}
use tiny_cplus.Compiler.Lexer.Scan.{
  blank, lexeme, in_line, first_op, operator_of, operator, found, scan,
}

-- An operator is one byte at least, begins with a mark and holds no newline.
abbrev IsOp : List ℕ → Type 0
IsOp o = (holds marks (get_or o 0 0) ≡ true) × (1 ≤ length o) × (holds o 10 ≡ false)

abbrev AreOps : List (List ℕ) → Type 0
AreOps [] = Unit
AreOps (o ∷ os) = IsOp o × AreOps os

ops-AreOps : AreOps ops
unfolding holds
ops-AreOps = ground arith

Plain-starts : (o s : List ℕ) → holds o 10 ≡ false → starts o s ≡ true → Plain (length o) s
unfolding holds starts
Plain-starts [] s h k = tt
Plain-starts (x ∷ xs) [] h k = absurd (ground arith)
Plain-starts (x ∷ xs) (y ∷ ys) h k =
    (ground arith, Plain-starts xs ys (ground arith) (ground arith))

starts-first : (o s : List ℕ) → 1 ≤ length o → starts o s ≡ true → get_or o 0 0 ≡ get_or s 0 0
unfolding starts
starts-first [] s h k = absurd (omega arith)
starts-first (x ∷ xs) [] h k = absurd (ground arith)
starts-first (x ∷ xs) (y ∷ ys) h k = ground arith

-- The operator found is one byte at least.
FoundOp : ℕ → List ℕ → Type 0
FoundOp n s = (1 ≤ n) × Plain n s × (holds marks (get_or s 0 0) ≡ true)

abbrev First : List ℕ → Option ℕ → Type 0
First s none = Unit
First s (some n) = FoundOp n s

First-first_op : (os : List (List ℕ)) (s : List ℕ) → AreOps os → First s (first_op os s)
unfolding first_op FoundOp
First-first_op [] s a = tt
First-first_op (o ∷ os) s ((m, l, h), b) =
    if_cases (First s) (starts o s)
      (λ e. (l, Plain-starts o s h e, subst (λ x. holds marks x ≡ true) (starts-first o s l e) m))
      (λ _. First-first_op os s b)

-- No mark is a newline or the end of the file.
mark_ne : (x : ℕ) → holds marks x ≡ true → (x ≢ 0) × (x ≢ 10)
unfolding holds
mark_ne x h = (ground arith, ground arith)

Finds-operator_of :
    (l : Loc) (c : Cursor) (o : Option ℕ) → First c.rest o → Ends (Finds c) (operator_of l c o)
unfolding operator_of FoundOp
Finds-operator_of l c none h =
    if_cases (Ends (Finds c)) (holds marks (byte c 0))
      (λ e. let (a, b) = mark_ne (byte c 0) e in (Moves-one c a b, e, tt)) (λ _. tt)
Finds-operator_of l c (some n) h = (Moves-le h.0 (Moves-forward n c h.1), h.2, tt)

Finds-line_comment :
    (c : Cursor) → byte c 0 ≡ 47 → byte c 1 ≡ 47 → Ends (Finds c) (ok (blank (run in_line c)))
Finds-line_comment c h k =
    (Moves-run_first in_line c refl (ground arith) (ground arith), Skipped-line c h k)

Finds-name :
    (c : Cursor)
    → (is_alpha (byte c 0) || byte c 0 == 95) ≡ true
    → Ends (Finds c) (ok (lexeme id (run in_name (forward 1 c))))
Finds-name c h = (
  Moves-trans (Moves-one c (ground arith) (ground arith)) (Moves-run in_name (forward 1 c) refl),
  h,
  run-stops in_name (forward 1 c) refl,
)

pub Finds-scan : (c : Cursor) → byte c 0 ≢ 0 → Ends (Finds c) (scan c)
unfolding scan operator
Finds-scan c h =
    let b = byte c 0 in
    let P = Ends (Finds c) in
    if_cases P (is_space b) (λ e. (Moves-tick c h, one_blank e (after_tick c h)))
      (λ s.
        if_cases P (b == 47 && byte c 1 == 47)
          (λ e. Finds-line_comment c (ground arith) (ground arith))
          (λ t.
            if_cases P (b == 47 && byte c 1 == 42)
              (λ e. Finds-comment (loc c) c (ground arith) (ground arith))
              (λ u.
                if_cases P (is_alpha b || b == 95) (λ e. Finds-name c e)
                  (λ v.
                    if_cases P (is_digit b)
                      (λ e.
                        Ends-and_then (Lexes c) (Finds c) (number (loc c) c) found
                          (Lexes-number (loc c) c e) (λ q a. a))
                      (λ w.
                        if_cases P (b == 34 || b == 39)
                          (λ e.
                            Ends-and_then (Lexes c) (Finds c) (literal (loc c) c) found
                              (Lexes-literal (loc c) c (ground arith)) (λ q a. a))
                          (λ x.
                            Finds-operator_of (loc c) c (first_op ops c.rest)
                              (First-first_op ops c.rest ops-AreOps)))))))
