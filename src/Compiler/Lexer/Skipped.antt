-- ===== src/Compiler/Lexer/Skipped.antt =====
-- What the lexer may skip: a blank, a line comment or a block comment.
use mathlib.Core.Path.{subst}
use tiny_cplus.Prelude.{
  ℕ, suc, ◌+◌, ◌-◌, ◌≡◌, ◌≢◌, refl, sym, ap, ◌∙◌, true, false, ◌&&◌, List, [], ◌∷◌, ◌++◌, ◌==◌,
  get_or, drop, take, take-append-drop, arith, ◌⊎◌, inl, inr, Bool-cases,
}
use tiny_cplus.Compiler.Lexer.{Cursor, byte, forward, tick, run, span, is_space}
use tiny_cplus.Compiler.Lexer.Moves.{run-stops, first_byte}
use tiny_cplus.Compiler.Lexer.Scan.{in_line}

-- The text of a line comment: no newline and no zero.
abbrev pub InLine : List ℕ → Type 0
InLine [] = Unit
InLine (x ∷ xs) = (x ≢ 0) × (x ≢ 10) × InLine xs

-- A text that closes so many levels of block comments, the last of them at its end: levels open and
-- close in it, and no byte is a zero.
pub data Closes : ℕ → List ℕ → Type 0 where
  all_closed : Closes 0 []
  opens : {n : ℕ} {text : List ℕ} → n ≢ 0 → Closes (n + 1) text → Closes n (47 ∷ 42 ∷ text)
  closes : {n : ℕ} {text : List ℕ} → n ≢ 0 → Closes (n - 1) text → Closes n (42 ∷ 47 ∷ text)
  other :
      {n x : ℕ} {text : List ℕ}
      → n ≢ 0
      → x ≢ 0
      → (x == 47 && get_or text 0 0 == 42) ≡ false
      → (x == 42 && get_or text 0 0 == 47) ≡ false
      → Closes n text
      → Closes n (x ∷ text)

-- What lies between two cursors
pub data Skipped (c d : Cursor) : Type 0 where
  one_blank : is_space (byte c 0) ≡ true → c.rest ≡ byte c 0 ∷ d.rest → Skipped c d
  line_comment :
      (text : List ℕ)
      → byte c 0 ≡ 47
      → byte c 1 ≡ 47
      → c.rest ≡ text ++ d.rest
      → InLine text
      → (byte d 0 ≡ 0) ⊎ (byte d 0 ≡ 10)
      → Skipped c d
  block_comment :
      (text : List ℕ) → c.rest ≡ 47 ∷ 42 ∷ (text ++ d.rest) → Closes 1 text → Skipped c d

in_line-bytes : (x : ℕ) → in_line x ≡ true → (x ≢ 0) × (x ≢ 10)
in_line-bytes x h = (ground arith, ground arith)

InLine-span : (xs : List ℕ) → InLine (take (span in_line xs) xs)
unfolding span
InLine-span [] = tt
InLine-span (x ∷ xs) = elim (Bool-cases (in_line x)) [
  | inl e ↦
      let (a, b) = in_line-bytes x e in
      subst (λ t. InLine (take (elim t [ true ↦ suc (span in_line xs) | false ↦ 0 ]) (x ∷ xs)))
        (sym e) (a, b, InLine-span xs)
  | inr e ↦
      subst (λ t. InLine (take (elim t [ true ↦ suc (span in_line xs) | false ↦ 0 ]) (x ∷ xs)))
        (sym e) tt
]

line_ends : (x : ℕ) → in_line x ≡ false → (x ≡ 0) ⊎ (x ≡ 10)
line_ends x h = ground arith

pub Skipped-line : (c : Cursor) → byte c 0 ≡ 47 → byte c 1 ≡ 47 → Skipped c (run in_line c)
unfolding run forward
Skipped-line c h k =
    line_comment (take (span in_line c.rest) c.rest) h k
      (sym (take-append-drop (span in_line c.rest) c.rest)) (InLine-span c.rest)
      (line_ends (byte (run in_line c) 0) (run-stops in_line c refl))

-- However the rest closes from here on, the whole of it closes one level.
abbrev pub Nesting : List ℕ → Cursor × ℕ → Type 0
Nesting s (c, n) =
    (text rest : List ℕ)
    → Closes n text
    → c.rest ≡ text ++ rest
    → (whole : List ℕ) × Closes 1 whole × (s ≡ whole ++ rest)

pub Nesting-opens :
    (s : List ℕ) (c d : Cursor) (n : ℕ)
    → n ≢ 0
    → c.rest ≡ 47 ∷ 42 ∷ d.rest
    → Nesting s (c, n)
    → Nesting s (d, n + 1)
Nesting-opens s c d n h e k text rest a f =
    k (47 ∷ 42 ∷ text) rest (opens h a) (e ∙ ap (λ r. 47 ∷ 42 ∷ r) f)

pub Nesting-closes :
    (s : List ℕ) (c d : Cursor) (n : ℕ)
    → n ≢ 0
    → c.rest ≡ 42 ∷ 47 ∷ d.rest
    → Nesting s (c, n)
    → Nesting s (d, n - 1)
Nesting-closes s c d n h e k text rest a f =
    k (42 ∷ 47 ∷ text) rest (closes h a) (e ∙ ap (λ r. 42 ∷ 47 ∷ r) f)

first-append :
    {n : ℕ} (text rest : List ℕ)
    → n ≢ 0
    → Closes n text
    → get_or (text ++ rest) 0 0 ≡ get_or text 0 0
first-append [] rest h all_closed = absurd (h refl)
first-append (x ∷ text) rest h a = refl

pub Nesting-other :
    (s : List ℕ) (c d : Cursor) (n : ℕ)
    → n ≢ 0
    → byte c 0 ≢ 0
    → (byte c 0 == 47 && byte c 1 == 42) ≡ false
    → (byte c 0 == 42 && byte c 1 == 47) ≡ false
    → c.rest ≡ byte c 0 ∷ d.rest
    → Nesting s (c, n)
    → Nesting s (d, n)
Nesting-other s c d n h z p q e k text rest a f =
    let second : byte c 1 ≡ get_or text 0 0 =
      ap (λ r. get_or r 1 0) e ∙ ap (λ r. get_or r 0 0) f ∙ first-append text rest h a in
    k (byte c 0 ∷ text) rest
      (other h z (subst (λ x. (byte c 0 == 47 && x == 42) ≡ false) second p)
        (subst (λ x. (byte c 0 == 42 && x == 47) ≡ false) second q) a)
      (e ∙ ap (λ r. byte c 0 ∷ r) f)

-- Two bytes that are no zeros
two_bytes :
    (xs : List ℕ) (x y : ℕ)
    → get_or xs 0 0 ≡ x
    → get_or xs 1 0 ≡ y
    → x ≢ 0
    → y ≢ 0
    → xs ≡ x ∷ y ∷ drop 2 xs
two_bytes [] x y e f h k = absurd (h (sym e))
two_bytes (a ∷ []) x y e f h k = absurd (k (sym f))
two_bytes (a ∷ b ∷ xs) x y e f h k = cc

pub after_two :
    (c : Cursor) (x y : ℕ)
    → byte c 0 ≡ x
    → byte c 1 ≡ y
    → x ≢ 0
    → y ≢ 0
    → c.rest ≡ x ∷ y ∷ (forward 2 c).rest
unfolding forward
after_two c x y = two_bytes c.rest x y

pub after_tick : (c : Cursor) → byte c 0 ≢ 0 → c.rest ≡ byte c 0 ∷ (tick c).rest
unfolding tick
after_tick c = first_byte c.rest
