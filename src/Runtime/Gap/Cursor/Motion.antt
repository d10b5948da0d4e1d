-- ===== src/Runtime/Gap/Cursor/Motion.antt =====
-- Where a move of one character goes, and what the deletions remove.
use tiny_cplus.Prelude.{
  ℕ, zero, suc, ◌+◌, ◌-◌, ◌<◌, ◌≤◌, ◌≡◌, refl, sym, ap, ◌∙◌, ◌⊎◌, inl, inr, Bool, true, false,
  Bool-cases, List, arith, length, get_or, lt→ltb,
}
use mathlib.Core.Path.{subst, subst₂}
use native.Mathlib.Decide.{dec_lt}
use tiny_cplus.Runtime.Gap.{Gap, size, byte}
use tiny_cplus.Runtime.Gap.Valid.{IsValid, contents, size-length, length-contents, byte-contents}
use tiny_cplus.Runtime.Gap.Seek.{Sought, seek_to}
use tiny_cplus.Runtime.Gap.Cursor.{continues, back, previous, forth, next, left, right}

-- `q` is the start of the character that ends at `p`: the bytes from behind `q` up to `p` are
-- continuation bytes, and the one at `q` is not, unless the text begins there.
pub record StartsBefore (l : List ℕ) (q p : ℕ) : Type 0 where
  pub below : q < p
  pub inner : (i : ℕ) → q < i → i < p → continues (get_or l i 0) ≡ true
  pub outer : (q ≡ 0) ⊎ (continues (get_or l q 0) ≡ false)

-- `q` is the end of the character that starts at `p`.
pub record EndsAfter (l : List ℕ) (p q : ℕ) : Type 0 where
  pub above : p < q
  pub within : q ≤ length l
  pub inner : (i : ℕ) → p < i → i < q → continues (get_or l i 0) ≡ true
  pub outer : (q ≡ length l) ⊎ (continues (get_or l q 0) ≡ false)

-- A newline starts a character.
pub continues-newline : continues b'\n' ≡ false
unfolding continues
continues-newline = refl

widen_down :
    (P : ℕ → Type 0) (p r : ℕ)
    → ((i : ℕ) → suc p < i → i < r → P i)
    → P (suc p)
    → (i : ℕ) → p < i
    → i < r
    → P i
widen_down P p r inner here i a b = elim (dec_lt (suc p) i) [
  | yes h ↦ inner i h b
  | no h ↦ subst P {x = suc p} {y = i} (omega arith) here
]

widen_up :
    (P : ℕ → Type 0) (p q : ℕ)
    → ((i : ℕ) → p < i → i < q → P i)
    → P q
    → (i : ℕ) → p < i
    → i < q + 1
    → P i
widen_up P p q inner here i a b = elim (dec_lt i q) [
  | yes h ↦ inner i a h
  | no h ↦ subst P {x = q} {y = i} (omega arith) here
]

module _ (g : Gap) (v : IsValid g) where
  continues-contents :
      (p : ℕ) {b : Bool}
      → p < length (contents g)
      → continues (byte g p) ≡ b
      → continues (get_or (contents g) p 0) ≡ b
  continues-contents p h e = ap continues (sym (byte-contents g p v h)) ∙ e

  StartsBefore-back :
      (p r : ℕ)
      → p < r
      → r ≤ length (contents g)
      → ((i : ℕ) → p < i → i < r → continues (get_or (contents g) i 0) ≡ true)
      → StartsBefore (contents g) (back g p) r
  unfolding back
  StartsBefore-back zero r lt le inner = record { below = lt; inner = inner; outer = inl refl }
  StartsBefore-back (suc p) r lt le inner = elim (Bool-cases (continues (byte g (suc p)))) [
    | inr stop ↦
        rw (stop, back)
          (record {
            below = lt;
            inner = inner;
            outer = inr (continues-contents (suc p) (omega arith) stop);
          })
    | inl more ↦
        rw (more, back)
          (StartsBefore-back p r (omega arith) le (
            widen_down (λ i. continues (get_or (contents g) i 0) ≡ true) p r inner
              (continues-contents (suc p) (omega arith) more)))
  ]

  EndsAfter-forth :
      (n p q : ℕ)
      → p < q
      → q + n ≡ length (contents g)
      → ((i : ℕ) → p < i → i < q → continues (get_or (contents g) i 0) ≡ true)
      → EndsAfter (contents g) p (forth g n q)
  unfolding forth
  EndsAfter-forth zero p q lt e inner = record {
    above = lt;
    within = omega arith;
    inner = inner;
    outer = inl (omega arith);
  }
  EndsAfter-forth (suc n) p q lt e inner = elim (Bool-cases (continues (byte g q))) [
    | inr stop ↦
        rw (stop, forth)
          (record {
            above = lt;
            within = omega arith;
            inner = inner;
            outer = inr (continues-contents q (omega arith) stop);
          })
    | inl more ↦
        rw (more, forth)
          (EndsAfter-forth n p (q + 1) (omega arith) (omega arith) (
            widen_up (λ i. continues (get_or (contents g) i 0) ≡ true) p q inner
              (continues-contents q (omega arith) more)))
  ]

  -- `tc_gap_previous` finds the start of the character that ends at a position past 0.
  pub StartsBefore-previous :
      (p : ℕ) → 0 < p → p ≤ length (contents g) → StartsBefore (contents g) (previous g p) p
  unfolding previous
  StartsBefore-previous zero h le = absurd (omega arith)
  StartsBefore-previous (suc p) h le =
      StartsBefore-back p (suc p) (omega arith) le (λ i a b. absurd (omega arith))

  -- `tc_gap_next` finds the end of the character that starts at a position before the end.
  pub EndsAfter-next : (p : ℕ) → p < length (contents g) → EndsAfter (contents g) p (next g p)
  unfolding next
  EndsAfter-next p h =
      rw (lt→ltb p (size g) (omega (arith, size-length g v)), next)
        (EndsAfter-forth (size g - (p + 1)) p (p + 1) (omega arith) (omega (arith, size-length g v))
          (λ i a b. absurd (omega arith)))

  pub next-end : (p : ℕ) → length (contents g) ≤ p → next g p ≡ p
  unfolding next
  next-end p h = ground (arith, size-length g v)

StartsBefore-unique : (l : List ℕ) {p q r : ℕ} → StartsBefore l q p → StartsBefore l r p → q ≡ r
StartsBefore-unique l {p} {q} {r} s t = elim (dec_lt q r) [
  | yes lt ↦ absurd (clash s t lt)
  | no ge ↦ elim (dec_lt r q) [ yes lt ↦ absurd (clash t s lt) | no le ↦ omega arith ]
]
  where
    clash : {a b : ℕ} → StartsBefore l a p → StartsBefore l b p → a < b → ⊥
    clash {a} {b} s t lt = go t.outer
      where
        go : (b ≡ 0) ⊎ (continues (get_or l b 0) ≡ false) → ⊥
        go (inl e) = omega arith
        go (inr e) = cc (s.inner b lt t.below)

-- On a valid buffer whose cursor is before the end of the text and at the start of a character,
-- moving right and then left comes back to the same place, with the same text.
pub left-right :
    (g : Gap)
    → IsValid g
    → g.start < length (contents g)
    → (g.start ≡ 0) ⊎ (continues (get_or (contents g) g.start 0) ≡ false)
    → ((left (right g)).start ≡ g.start) × (contents (left (right g)) ≡ contents g)
unfolding left right
left-right g v h edge = (
  moved.at ∙ StartsBefore-unique (contents g) {p = next g g.start} back_here here,
  moved.kept ∙ ahead.kept,
)
  where
    e : EndsAfter (contents g) g.start (next g g.start)
    e = EndsAfter-next g v g.start h

    ahead : Sought g (next g g.start) (right g)
    ahead = unfold right in seek_to g (next g g.start) v e.within

    here : StartsBefore (contents g) g.start (next g g.start)
    here = record { below = e.above; inner = e.inner; outer = edge }

    found : StartsBefore (contents (right g)) (previous (right g) (right g).start) (right g).start
    found =
        StartsBefore-previous (right g) ahead.valid (right g).start
          (omega (arith, ahead.at, e.above)) (omega (arith, length-contents (right g)))

    back_here : StartsBefore (contents g) (previous (right g) (right g).start) (next g g.start)
    back_here =
        subst₂ (λ l k. StartsBefore l (previous (right g) (right g).start) k) ahead.kept ahead.at
          found

    moved : Sought (right g) (previous (right g) (right g).start) (left (right g))
    moved =
        unfold left in
        seek_to (right g) (previous (right g) (right g).start) ahead.valid
          (omega (arith, found.below, length-contents (right g)))
