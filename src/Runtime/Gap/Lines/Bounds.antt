-- ===== src/Runtime/Gap/Lines/Bounds.antt =====
-- Where lines begin and end, and how they are counted.
use tiny_cplus.Prelude.{
  ℕ, zero, suc, ◌+◌, ◌-◌, ◌<◌, ◌≤◌, ◌≡◌, ◌≢◌, refl, sym, ap, ◌∙◌, ◌⊎◌, inl, inr, true, false,
  Bool-cases, List, [], ◌∷◌, arith, length, get_or, take-append, ◌==◌, ==_iff, if◌then◌else◌,
}
use mathlib.Core.Path.{subst}
use native.Mathlib.Decide.{dec_lt}
use tiny_cplus.Machine.Block.{read, length-read}
use tiny_cplus.Runtime.Gap.{Gap, size, byte}
use tiny_cplus.Runtime.Gap.Valid.{
  IsValid, contents, before, size-length, length-contents, byte-contents, read-byte,
}
use tiny_cplus.Runtime.Gap.Seek.{Sought, seek_to}
use tiny_cplus.Runtime.Gap.Lines.{line_start, line_end, to_newline, count_lines, line, home, to_end}

abbrev pub newline : ℕ
newline = b'\n'

-- The line that holds the position `p` begins at `q`.
pub record BeginsLine (l : List ℕ) (q p : ℕ) : Type 0 where
  pub below : q ≤ p
  pub inner : (i : ℕ) → q ≤ i → i < p → get_or l i 0 ≢ newline
  pub outer : (q ≡ 0) ⊎ (get_or l (q - 1) 0 ≡ newline)

-- It ends at `q`, with a newline there or the end of the text.
pub record EndsLine (l : List ℕ) (p q : ℕ) : Type 0 where
  pub above : p ≤ q
  pub within : q ≤ length l
  pub inner : (i : ℕ) → p ≤ i → i < q → get_or l i 0 ≢ newline
  pub outer : (q ≡ length l) ⊎ (get_or l q 0 ≡ newline)

pub from_below :
    (P : ℕ → Type 0) (p r : ℕ)
    → ((i : ℕ) → suc p ≤ i → i < r → P i)
    → P p
    → (i : ℕ) → p ≤ i
    → i < r
    → P i
from_below P p r inner here i a b = elim (dec_lt p i) [
  | yes h ↦ inner i h b
  | no h ↦ subst P {x = p} {y = i} (omega arith) here
]

pub from_above :
    (P : ℕ → Type 0) (p q : ℕ)
    → ((i : ℕ) → p ≤ i → i < q → P i)
    → P q
    → (i : ℕ) → p ≤ i
    → i < q + 1
    → P i
from_above P p q inner here i a b = elim (dec_lt i q) [
  | yes h ↦ inner i a h
  | no h ↦ subst P {x = q} {y = i} (omega arith) here
]

module _ (g : Gap) (v : IsValid g) where
  is_newline :
      (p : ℕ)
      → p < length (contents g)
      → (byte g p == b'\n') ≡ true
      → get_or (contents g) p 0 ≡ newline
  is_newline p h e = sym (byte-contents g p v h) ∙ (==_iff (byte g p) b'\n').0 e

  not_newline :
      (p : ℕ)
      → p < length (contents g)
      → (byte g p == b'\n') ≡ false
      → get_or (contents g) p 0 ≢ newline
  not_newline p h e = ground (arith, byte-contents g p v h)

  BeginsLine-from :
      (p r : ℕ)
      → p ≤ r
      → r ≤ length (contents g)
      → ((i : ℕ) → p ≤ i → i < r → get_or (contents g) i 0 ≢ newline)
      → BeginsLine (contents g) (line_start g p) r
  unfolding line_start
  BeginsLine-from zero r le within inner = record { below = le; inner = inner; outer = inl refl }
  BeginsLine-from (suc p) r le within inner = elim (Bool-cases (byte g p == b'\n')) [
    | inl stop ↦
        rw (stop, line_start)
          (record {
            below = le;
            inner = inner;
            outer = inr (
                ap (λ k. get_or (contents g) k 0) {x = suc p - 1} {y = p} (omega arith)
                ∙ is_newline p (omega arith) stop);
          })
    | inr more ↦
        rw (more, line_start)
          (BeginsLine-from p r (omega arith) within (
            from_below (λ i. get_or (contents g) i 0 ≢ newline) p r inner
              (not_newline p (omega arith) more)))
  ]

  -- `tc_gap_line_start` finds the beginning of the line.
  pub BeginsLine-line_start :
      (p : ℕ) → p ≤ length (contents g) → BeginsLine (contents g) (line_start g p) p
  BeginsLine-line_start p h = BeginsLine-from p p (omega arith) h (λ i a b. absurd (omega arith))

  EndsLine-from :
      (n p q : ℕ)
      → p ≤ q
      → q + n ≡ length (contents g)
      → ((i : ℕ) → p ≤ i → i < q → get_or (contents g) i 0 ≢ newline)
      → EndsLine (contents g) p (to_newline g n q)
  unfolding to_newline
  EndsLine-from zero p q le e inner = record {
    above = le;
    within = omega arith;
    inner = inner;
    outer = inl (omega arith);
  }
  EndsLine-from (suc n) p q le e inner = elim (Bool-cases (byte g q == b'\n')) [
    | inl stop ↦
        rw (stop, to_newline)
          (record {
            above = le;
            within = omega arith;
            inner = inner;
            outer = inr (is_newline q (omega arith) stop);
          })
    | inr more ↦
        rw (more, to_newline)
          (EndsLine-from n p (q + 1) (omega arith) (omega arith) (
            from_above (λ i. get_or (contents g) i 0 ≢ newline) p q inner
              (not_newline q (omega arith) more)))
  ]

  -- `tc_gap_line_end` finds its end.
  pub EndsLine-line_end : (p : ℕ) → p ≤ length (contents g) → EndsLine (contents g) p (line_end g p)
  unfolding line_end
  EndsLine-line_end p h =
      EndsLine-from (size g - p) p p (omega arith) (omega (arith, size-length g v))
        (λ i a b. absurd (omega arith))

-- On a valid buffer `tc_gap_home` moves the cursor, and nothing else, to the place where its line
-- begins.
pub home_lem :
    (g : Gap)
    → IsValid g
    → Sought g (line_start g g.start) (home g)
      × BeginsLine (contents g) (line_start g g.start) g.start
unfolding home
home_lem g v =
    let b = BeginsLine-line_start g v g.start (omega (arith, length-contents g)) in
    (seek_to g (line_start g g.start) v (omega (arith, b.below, length-contents g)), b)

-- On a valid buffer `tc_gap_end` moves the cursor, and nothing else, to the place where its line
-- ends.
pub to_end_lem :
    (g : Gap)
    → IsValid g
    → Sought g (line_end g g.start) (to_end g) × EndsLine (contents g) g.start (line_end g g.start)
unfolding to_end
to_end_lem g v =
    let e = EndsLine-line_end g v g.start (omega (arith, length-contents g)) in
    (seek_to g (line_end g g.start) v e.within, e)

before-byte : (g : Gap) → IsValid g → read (byte g) 0 g.start ≡ before g
before-byte g v =
    read-byte g 0 g.start v (omega (arith, length-contents g))
    ∙ take-append (before g) _ g.start (sym (length-read g.block 0 g.start))

-- The newlines among the bytes of a list.
unfoldable pub newlines : List ℕ → ℕ
newlines [] = 0
newlines (b ∷ bytes) = (if b == newline then 1 else 0) + newlines bytes

count_lines-newlines :
    (g : Gap) (n p acc : ℕ) → count_lines g n p acc ≡ acc + newlines (read (byte g) p n)
unfolding count_lines newlines read
count_lines-newlines g zero p acc = omega arith
count_lines-newlines g (suc n) p acc =
    ground (arith, count_lines-newlines g n (p + 1) (if byte g p == b'\n' then acc + 1 else acc))

-- On a valid buffer `tc_gap_line` counts the newlines before the cursor.
pub line_lem : (g : Gap) → IsValid g → line g ≡ newlines (before g)
unfolding line
line_lem g v = count_lines-newlines g g.start 0 0 ∙ omega (arith, ap newlines (before-byte g v))
