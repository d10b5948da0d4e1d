-- ===== src/Runtime/Gap/Lines/Columns.antt =====
-- Columns: how many characters stand between the beginning of the line and the cursor, and the
-- vertical moves that keep them.
use tiny_cplus.Prelude.{
  ℕ, zero, suc, ◌+◌, ◌-◌, ◌<◌, ◌≤◌, ◌≡◌, refl, ap, ◌∙◌, ◌⊎◌, inl, inr, Bool-cases, List, arith,
  some, length, get_or, ltb, ltb→lt, ltb→ge,
}
use native.Mathlib.Decide.{dec_lt}
use tiny_cplus.Runtime.Gap.{Gap}
use tiny_cplus.Runtime.Gap.Valid.{IsValid, contents, length-contents}
use tiny_cplus.Runtime.Gap.Cursor.{continues, next}
use tiny_cplus.Runtime.Gap.Cursor.Motion.{EndsAfter, EndsAfter-next, continues-newline}
use tiny_cplus.Runtime.Gap.Lines.Bounds.{newline, BeginsLine, EndsLine, BeginsLine-line_start}
use tiny_cplus.Runtime.Gap.Lines.{line_start, count_columns, column, advance}

-- `n` characters lead from position `p` to the position `q`, or to one behind it that cuts a
-- character: each goes from its start to the start of the next.
pub data Steps (l : List ℕ) (stop : ℕ) : ℕ → ℕ → Type 0 where
  arrived : {p n : ℕ} → stop ≤ p → n ≡ 0 → Steps l stop p n
  step :
      {p q n k : ℕ} → p < stop → EndsAfter l p q → Steps l stop q n → k ≡ n + 1 → Steps l stop p k

module _ (g : Gap) (v : IsValid g) where
  count_columns-Steps :
      (fuel p acc : ℕ)
      → g.start - p < fuel
      → (c : ℕ) × (count_columns g fuel p acc ≡ some (acc + c)) × Steps (contents g) g.start p c
  unfolding count_columns
  count_columns-Steps zero p acc h = absurd (omega arith)
  count_columns-Steps (suc fuel) p acc h = elim (Bool-cases (ltb p g.start)) [
    | inr done ↦
        (0, rw (done, count_columns) (ap some (omega arith)), arrived (ltb→ge p g.start done) refl)
    | inl more ↦
        let lt : p < g.start = ltb→lt p g.start more in
        let e : EndsAfter (contents g) p (next g p) =
          EndsAfter-next g v p (omega (arith, length-contents g)) in
        let (c, counted, rest) =
          count_columns-Steps fuel (next g p) (acc + 1) (omega (arith, e.above)) in
        (c + 1, rw (more, count_columns) (counted ∙ ap some (omega arith)), step lt e rest refl)
  ]

  -- On a valid buffer `tc_gap_column` ends, and it counts the characters from the beginning of the
  -- line of the cursor up to the cursor.
  pub column_lem :
      (c : ℕ) × (column g ≡ some c)
      × BeginsLine (contents g) (line_start g g.start) g.start
      × Steps (contents g) g.start (line_start g g.start) c
  unfolding column
  column_lem =
      let (c, counted, s) =
        count_columns-Steps (g.start + 1) (line_start g g.start) 0 (omega arith) in
      (
        c,
        counted ∙ ap some (omega arith),
        BeginsLine-line_start g v g.start (omega (arith, length-contents g)),
        s,
      )

  passes :
      {p : ℕ} (stop q : ℕ)
      → stop < q
      → EndsAfter (contents g) p q
      → p < stop
      → (stop ≡ length (contents g)) ⊎ (get_or (contents g) stop 0 ≡ newline)
      → ⊥
  passes stop q past e lt (inl at_end) = omega (arith, e.within)
  passes stop q past e lt (inr at_newline) =
      cc (e.inner stop lt past, ap continues at_newline, continues-newline)

  -- The next character does not pass the end of the line.
  next-within-line : (p stop : ℕ) → p < stop → EndsLine (contents g) p stop → next g p ≤ stop
  next-within-line p stop lt e = elim (dec_lt stop (next g p)) [
    | no le ↦ omega arith
    | yes past ↦
        absurd
          (passes stop (next g p) past (EndsAfter-next g v p (omega (arith, e.within))) lt e.outer)
  ]

  pub advance-within :
      (n p stop : ℕ)
      → EndsLine (contents g) p stop
      → (p ≤ advance g stop n p) × (advance g stop n p ≤ stop)
  unfolding advance
  advance-within zero p stop e = (omega arith, e.above)
  advance-within (suc n) p stop e = elim (Bool-cases (ltb p stop)) [
    | inr done ↦ rw (done, advance) (omega arith, e.above)
    | inl more ↦
        let lt : p < stop = ltb→lt p stop more in
        let a : EndsAfter (contents g) p (next g p) =
          EndsAfter-next g v p (omega (arith, e.within)) in
        let r = advance-within n (next g p) stop (record {
          above = next-within-line p stop lt e;
          within = e.within;
          inner = λ i h k. e.inner i (omega (arith, a.above)) k;
          outer = e.outer;
        }) in
        rw (more, advance) (omega (arith, r, a.above), r.1)
  ]
