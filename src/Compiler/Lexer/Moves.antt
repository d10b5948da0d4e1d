-- ===== src/Compiler/Lexer/Moves.antt =====
-- How the lexer's cursor moves over the source, with its line and column.
use tiny_cplus.Prelude.{
  ℕ, zero, suc, ◌+◌, ◌≤◌, ◌≡◌, ◌≢◌, refl, sym, ap, ◌∙◌, Bool, true, false, ◌||◌, List, [], ◌∷◌,
  ◌++◌, append_assoc, ◌==◌, if◌then◌else◌, length, length-append, get_or, take, drop,
  take-append-drop, get_or-drop, arith, Bool-cases, inl, inr,
}
use tiny_cplus.Compiler.Lexer.{
  TokenKind, eof, id, int, float, string, char, op, Cursor, byte, forward, tick, span, run,
  is_alpha, is_digit, in_name, holds, marks,
}

-- The line and the column behind a byte, and behind a text.
abbrev pub behind : ℕ → ℕ × ℕ → ℕ × ℕ
behind x (l, c) = (if x == 10 then l + 1 else l, if x == 10 then 1 else c + 1)

abbrev pub locate : List ℕ → ℕ × ℕ → ℕ × ℕ
locate [] p = p
locate (x ∷ xs) p = locate xs (behind x p)

pub locate-append : (xs ys : List ℕ) (p : ℕ × ℕ) → locate (xs ++ ys) p ≡ locate ys (locate xs p)
locate-append [] ys p = refl
locate-append (x ∷ xs) ys p = locate-append xs ys (behind x p)

abbrev pub place : Cursor → ℕ × ℕ
place c = (c.line, c.col)

-- From `c` to `d` over a text of at least `n` bytes, with the line and the column kept up.
pub record Moves (n : ℕ) (c d : Cursor) : Type 0 where
  pub text : List ℕ
  pub split : c.rest ≡ text ++ d.rest
  pub located : locate text (place c) ≡ place d
  pub least : n ≤ length text

pub Moves-refl : (c : Cursor) → Moves 0 c c
Moves-refl c = record { text = []; split = refl; located = refl; least = omega arith }

pub Moves-trans : {m n : ℕ} {c d e : Cursor} → Moves m c d → Moves n d e → Moves (m + n) c e
Moves-trans {c} {e} a b = record {
  text = a.text ++ b.text;
  split = a.split ∙ ap (λ r. a.text ++ r) b.split ∙ sym (append_assoc a.text b.text e.rest);
  located = locate-append a.text b.text (place c) ∙ ap (locate b.text) a.located ∙ b.located;
  least = omega (arith, a.least, b.least, length-append a.text b.text);
}

pub Moves-le : {m n : ℕ} {c d : Cursor} → m ≤ n → Moves n c d → Moves m c d
Moves-le h a = record {
  text = a.text;
  split = a.split;
  located = a.located;
  least = omega (arith, a.least);
}

pub shorter : {n : ℕ} {c d : Cursor} → Moves n c d → length d.rest + n ≤ length c.rest
shorter {c} {d} a = omega (arith, a.least, ap length a.split, length-append a.text d.rest)

-- The first `n` bytes are there, and none is a newline.
abbrev pub Plain : ℕ → List ℕ → Type 0
Plain zero xs = Unit
Plain (suc n) [] = ⊥
Plain (suc n) (x ∷ xs) = (x ≢ 10) × Plain n xs

locate-Plain : (n : ℕ) (xs : List ℕ) (l c : ℕ) → Plain n xs → locate (take n xs) (l, c) ≡ (l, c + n)
locate-Plain zero xs l c h = ap (λ k. (l, k)) (omega arith)
locate-Plain (suc n) [] l c h = absurd h
locate-Plain (suc n) (x ∷ xs) l c h =
    let e : behind x (l, c) ≡ (l, c + 1) = ground (arith, h.0) in
    ap (locate (take n xs)) e ∙ locate-Plain n xs l (c + 1) h.1 ∙ ap (λ k. (l, k)) (omega arith)

length-Plain : (n : ℕ) (xs : List ℕ) → Plain n xs → n ≤ length (take n xs)
length-Plain zero xs h = omega arith
length-Plain (suc n) [] h = absurd h
length-Plain (suc n) (x ∷ xs) h = omega (arith, length-Plain n xs h.1)

pub Moves-forward : (n : ℕ) (c : Cursor) → Plain n c.rest → Moves n c (forward n c)
unfolding forward
Moves-forward n c h = record {
  text = take n c.rest;
  split = sym (take-append-drop n c.rest);
  located = locate-Plain n c.rest c.line c.col h;
  least = length-Plain n c.rest h;
}

pub byte-forward : (n : ℕ) (c : Cursor) → byte (forward n c) 0 ≡ byte c n
unfolding forward
byte-forward n c = get_or-drop n c.rest 0

-- The bytes of a text, with zeros behind its end, say that it is plain.
Plain-one : (xs : List ℕ) → get_or xs 0 0 ≢ 0 → get_or xs 0 0 ≢ 10 → Plain 1 xs
Plain-one [] a b = a refl
Plain-one (x ∷ xs) a b = (b, tt)

Plain-two :
    (xs : List ℕ)
    → get_or xs 0 0 ≢ 0
    → get_or xs 0 0 ≢ 10
    → get_or xs 1 0 ≢ 0
    → get_or xs 1 0 ≢ 10
    → Plain 2 xs
Plain-two [] a b c d = absurd (a refl)
Plain-two (x ∷ xs) a b c d = (b, Plain-one xs c d)

pub Moves-one : (c : Cursor) → byte c 0 ≢ 0 → byte c 0 ≢ 10 → Moves 1 c (forward 1 c)
Moves-one c a b = Moves-forward 1 c (Plain-one c.rest a b)

pub Moves-two :
    (c : Cursor)
    → byte c 0 ≢ 0
    → byte c 0 ≢ 10
    → byte c 1 ≢ 0
    → byte c 1 ≢ 10
    → Moves 2 c (forward 2 c)
Moves-two c a b d e = Moves-forward 2 c (Plain-two c.rest a b d e)

pub Plain-span : (p : ℕ → Bool) (xs : List ℕ) → p 10 ≡ false → Plain (span p xs) xs
unfolding span
Plain-span p [] h = tt
Plain-span p (x ∷ xs) h = elim (Bool-cases (p x)) [
  | inl e ↦ rw (e, Plain) (λ q. cc, Plain-span p xs h)
  | inr e ↦ rw (e, Plain) tt
]

pub Moves-run : (p : ℕ → Bool) (c : Cursor) → p 10 ≡ false → Moves 0 c (run p c)
unfolding run
Moves-run p c h = Moves-le (omega arith) (Moves-forward (span p c.rest) c (Plain-span p c.rest h))

one-le-span :
    (p : ℕ → Bool) (xs : List ℕ) → get_or xs 0 0 ≢ 0 → p (get_or xs 0 0) ≡ true → 1 ≤ span p xs
unfolding span
one-le-span p [] a h = absurd (a refl)
one-le-span p (x ∷ xs) a h = rw (h, span) (omega arith)

-- Where the first byte passes the test.
pub Moves-run_first :
    (p : ℕ → Bool) (c : Cursor)
    → p 10 ≡ false
    → byte c 0 ≢ 0
    → p (byte c 0) ≡ true
    → Moves 1 c (run p c)
unfolding run
Moves-run_first p c h a b =
    Moves-le (one-le-span p c.rest a b) (Moves-forward (span p c.rest) c (Plain-span p c.rest h))

span-stops :
    (p : ℕ → Bool) (xs : List ℕ) → p 0 ≡ false → p (get_or (drop (span p xs) xs) 0 0) ≡ false
unfolding span
span-stops p [] h = h
span-stops p (x ∷ xs) h = elim (Bool-cases (p x)) [
  | inl e ↦ rw (e, span) (span-stops p xs h)
  | inr e ↦ rw (e, span) e
]

-- A run goes as far as the test allows.
pub run-stops : (p : ℕ → Bool) (c : Cursor) → p 0 ≡ false → p (byte (run p c) 0) ≡ false
unfolding run forward
run-stops p c h = span-stops p c.rest h

pub first_byte : (xs : List ℕ) → get_or xs 0 0 ≢ 0 → xs ≡ get_or xs 0 0 ∷ drop 1 xs
first_byte [] h = absurd (h refl)
first_byte (x ∷ xs) h = refl

pub Moves-tick : (c : Cursor) → byte c 0 ≢ 0 → Moves 1 c (tick c)
unfolding tick
Moves-tick c h = record {
  text = byte c 0 ∷ [];
  split = first_byte c.rest h;
  located = refl;
  least = omega arith;
}

-- What the first byte of a token is, by the kind of the token.
abbrev pub Kind : TokenKind → ℕ → Type 0
Kind eof x = ⊥
Kind id x = (is_alpha x || x == 95) ≡ true
Kind int x = is_digit x ≡ true
Kind float x = is_digit x ≡ true
Kind string x = x ≡ 34
Kind char x = x ≡ 39
Kind op x = holds marks x ≡ true

-- What must not follow a token of a kind.
abbrev pub Ended : TokenKind → ℕ → Type 0
Ended id x = in_name x ≡ false
Ended int x = (is_alpha x || x == 95) ≡ false
Ended float x = (is_alpha x || x == 95) ≡ false
Ended _ x = Unit
