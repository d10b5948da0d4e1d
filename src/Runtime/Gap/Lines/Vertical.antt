-- ===== src/Runtime/Gap/Lines/Vertical.antt =====
-- `tc_gap_vertical`: the cursor goes to the line above or below.
use tiny_cplus.Prelude.{
  ℕ, ◌+◌, ◌-◌, ◌<◌, ◌≤◌, ◌≡◌, refl, ◌∙◌, inl, inr, Bool, true, false, Bool-cases, List, arith,
  Option, none, some, length, ◌==◌, ==_iff,
}
use mathlib.Core.Path.{subst}
use tiny_cplus.Prelude.Int.{ℤ, pos, ltb_ℤ}
use tiny_cplus.Runtime.Gap.{Gap, size, seek}
use tiny_cplus.Runtime.Gap.Valid.{IsValid, contents, size-length, length-contents}
use tiny_cplus.Runtime.Gap.Seek.{Sought, seek_to}
use tiny_cplus.Runtime.Gap.Lines.Bounds.{
  BeginsLine, EndsLine, BeginsLine-line_start, EndsLine-line_end,
}
use tiny_cplus.Runtime.Gap.Lines.Columns.{column_lem, advance-within}
use tiny_cplus.Runtime.Gap.Lines.{line_start, line_end, advance, target_line, settle, vertical}

-- The line to go to from the position `at`: up, the one that the byte before this line's beginning
-- is in, if the line is not the first; down, the one behind the newline that ends this line, if
-- one does.
abbrev pub Target : List ℕ → ℕ → Bool → Option ℕ → Type 0
Target l at true none = BeginsLine l 0 at
Target l at true (some p) = (b : ℕ) × BeginsLine l b at × (0 < b) × BeginsLine l p (b - 1)
Target l at false none = (b : ℕ) × BeginsLine l b at × EndsLine l b (length l)
Target l at false (some p) =
    (b : ℕ) × BeginsLine l b at
    × (stop : ℕ) × EndsLine l b stop
    × (stop < length l)
    × (p ≡ stop + 1)

-- The cursor is somewhere on the line that begins at `p`, in the same text.
pub record InLine (g : Gap) (p : ℕ) (h : Gap) : Type 0 where
  pub place : ℕ
  pub stop : ℕ
  pub sought : Sought g place h
  pub ends : EndsLine (contents g) p stop
  pub from : p ≤ place
  pub upto : place ≤ stop

abbrev pub Lands : Gap → Gap → Option ℕ → Type 0
Lands g h none = h ≡ g
Lands g h (some p) = InLine g p h

module _ (g : Gap) (v : IsValid g) where
  begin : BeginsLine (contents g) (line_start g g.start) g.start
  begin = BeginsLine-line_start g v g.start (omega (arith, length-contents g))

  finish : EndsLine (contents g) (line_start g g.start) (line_end g (line_start g g.start))
  finish =
      EndsLine-line_end g v (line_start g g.start) (omega (arith, begin.below, length-contents g))

  Target-target_line :
      (direction : ℤ)
      → Target (contents g) g.start (ltb_ℤ direction (pos 0)) (target_line g direction)
  Target-target_line direction = elim (Bool-cases (ltb_ℤ direction (pos 0))) [
    | inl up ↦ rw up (elim (Bool-cases (line_start g g.start == 0)) [
      | inl first ↦ rw (up_first direction up first) (
          subst (λ b. BeginsLine (contents g) b g.start) ((==_iff (line_start g g.start) 0).0 first)
            begin)
      | inr later ↦ rw (up_later direction up later) (
        line_start g g.start,
        begin,
        ground arith,
        BeginsLine-line_start g v (line_start g g.start - 1)
            (omega (arith, begin.below, length-contents g)),
      )
    ])
    | inr down ↦ rw down (elim (Bool-cases (line_end g (line_start g g.start) == size g)) [
      | inl last ↦ rw (down_last direction down last) (
        line_start g g.start,
        begin,
        subst (EndsLine (contents g) (line_start g g.start))
            ((==_iff (line_end g (line_start g g.start)) (size g)).0 last ∙ size-length g v) finish,
      )
      | inr more ↦ rw (down_more direction down more) (
        line_start g g.start,
        begin,
        line_end g (line_start g g.start),
        finish,
        ground (arith, finish.within, size-length g v),
        refl,
      )
    ])
  ]
    where
      up_first :
          (d : ℤ)
          → ltb_ℤ d (pos 0) ≡ true
          → (line_start g g.start == 0) ≡ true
          → target_line g d ≡ none
      up_first d a b = unfold target_line in rw (a, b, target_line)

      up_later :
          (d : ℤ)
          → ltb_ℤ d (pos 0) ≡ true
          → (line_start g g.start == 0) ≡ false
          → target_line g d ≡ some (line_start g (line_start g g.start - 1))
      up_later d a b = unfold target_line in rw (a, b, target_line)

      down_last :
          (d : ℤ)
          → ltb_ℤ d (pos 0) ≡ false
          → (line_end g (line_start g g.start) == size g) ≡ true
          → target_line g d ≡ none
      down_last d a b = unfold target_line in rw (a, b, target_line)

      down_more :
          (d : ℤ)
          → ltb_ℤ d (pos 0) ≡ false
          → (line_end g (line_start g g.start) == size g) ≡ false
          → target_line g d ≡ some (line_end g (line_start g g.start) + 1)
      down_more d a b = unfold target_line in rw (a, b, target_line)

  Lands-settle :
      (c : ℕ) (target : Option ℕ)
      → ((p : ℕ) → target ≡ some p → p ≤ length (contents g))
      → (h : Gap) × (settle g (some c) target ≡ some h) × Lands g h target
  unfolding settle
  Lands-settle c none fits = (g, refl, refl)
  Lands-settle c (some p) fits =
      let e : EndsLine (contents g) p (line_end g p) = EndsLine-line_end g v p (fits p refl) in
      let place : ℕ = advance g (line_end g p) c p in
      let (from, upto) = advance-within g v c p (line_end g p) e in
      (
        seek g place,
        refl,
        record {
          place = place;
          stop = line_end g p;
          sought = seek_to g place v (omega (arith, upto, e.within));
          ends = e;
          from = from;
          upto = upto;
        },
      )

  target-within :
      (direction : ℤ) (p : ℕ) → target_line g direction ≡ some p → p ≤ length (contents g)
  unfolding target_line
  target-within direction p e = ground (
    arith,
    begin.below,
    finish.within,
    size-length g v,
    length-contents g,
    (BeginsLine-line_start g v (line_start g g.start - 1)
        (omega (arith, begin.below, length-contents g))).below,
  )

-- On a valid buffer `tc_gap_vertical` ends. It goes nowhere from the first line upwards and from the last
-- line downwards; otherwise the cursor lands on the line above or below, between its beginning and
-- its end, and the text, the capacity, the dirty mark and the invariant stay.
pub vertical_lem :
    (g : Gap) (direction : ℤ)
    → IsValid g
    → Target (contents g) g.start (ltb_ℤ direction (pos 0)) (target_line g direction)
      × ((h : Gap) × (vertical g direction ≡ some h) × Lands g h (target_line g direction))
unfolding vertical
vertical_lem g direction v =
    let (c, counted, _, _) = column_lem g v in
    (
      Target-target_line g v direction,
      rw (counted, settle)
          (Lands-settle g v c (target_line g direction) (target-within g v direction)),
    )
