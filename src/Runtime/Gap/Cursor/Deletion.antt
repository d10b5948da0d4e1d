-- ===== src/Runtime/Gap/Cursor/Deletion.antt =====
-- What Backspace and Delete remove from the text.
use tiny_cplus.Prelude.{
  ℕ, ◌+◌, ◌-◌, ◌<◌, ◌≤◌, ◌≡◌, refl, sym, ap, ◌∙◌, true, false, ◌++◌, arith, length, take, drop,
  ◌==◌, if◌then◌else◌, take-append_left, drop-append_right,
}
use mathlib.Core.Path.{ap₂}
use tiny_cplus.Machine.{add_size, sub_size}
use tiny_cplus.Machine.Block.{read, take-read, drop-read, length-read}
use tiny_cplus.Runtime.Gap.{Gap}
use tiny_cplus.Runtime.Gap.Valid.{IsValid, before, after, contents, length-contents}
use tiny_cplus.Runtime.Gap.Cursor.{previous, next, backspace, delete}
use tiny_cplus.Runtime.Gap.Cursor.Motion.{
  StartsBefore, EndsAfter, StartsBefore-previous, EndsAfter-next, next-end,
}

-- The bytes of the text from `from` up to `to` are gone, and the cursor stands there.
pub record Removed (g : Gap) (from to : ℕ) (h : Gap) : Type 0 where
  pub valid : IsValid h
  pub at : h.start ≡ from
  pub kept : contents h ≡ take from (contents g) ++ drop to (contents g)
  pub mark : h.dirty ≡ (if from == to then g.dirty else true)

-- Giving up bytes on the right of the gap.
pub contents-wider :
    (g : Gap) (n : ℕ)
    → n ≤ g.capacity - g.stop
    → read g.block 0 g.start ++ read g.block (g.stop + n) (g.capacity - (g.stop + n))
      ≡ take g.start (contents g) ++ drop (g.start + n) (contents g)
contents-wider g n h =
    ap₂ ◌++◌
      (sym (
        take-append_left g.start (before g) (after g) (omega (arith, length-read g.block 0 g.start))
        ∙ take-read g.block 0 g.start g.start (omega arith)))
      (ap (read g.block (g.stop + n)) {x = g.capacity - (g.stop + n)} {y = g.capacity - g.stop - n}
          (omega arith)
        ∙ sym (
            drop-append_right (before g) (after g) n (g.start + n)
              (omega (arith, length-read g.block 0 g.start))
            ∙ drop-read g.block g.stop (g.capacity - g.stop) n h))

-- Giving up bytes on its left.
contents-shorter :
    (g : Gap) (p : ℕ)
    → p ≤ g.start
    → read g.block 0 p ++ after g ≡ take p (contents g) ++ drop g.start (contents g)
contents-shorter g p h =
    ap₂ ◌++◌
      (sym (
        take-append_left p (before g) (after g) (omega (arith, length-read g.block 0 g.start))
        ∙ take-read g.block 0 g.start p h))
      (sym (
        drop-append_right (before g) (after g) 0 g.start
          (omega (arith, length-read g.block 0 g.start))))

-- On a valid buffer whose cursor is not at the start of the text, `tc_gap_backspace` removes
-- exactly the bytes from the start of the character before the cursor up to the cursor.
pub backspace_lem :
    (g : Gap)
    → IsValid g
    → 0 < g.start
    → StartsBefore (contents g) (previous g g.start) g.start
      × Removed g (previous g g.start) g.start (backspace g)
unfolding backspace
backspace_lem g v h = (
  s,
  rw (test, backspace)
      (record {
        valid = omega (arith, s.below);
        at = refl;
        kept = contents-shorter g (previous g g.start) (omega (arith, s.below));
        mark = ground (arith, s.below);
      }),
)
  where
    s : StartsBefore (contents g) (previous g g.start) g.start
    s = StartsBefore-previous g v g.start h (omega (arith, length-contents g))

    test : (previous g g.start == g.start) ≡ false
    test = ground (arith, s.below)

backspace-start : (g : Gap) → g.start ≡ 0 → backspace g ≡ g
unfolding backspace previous
backspace-start g e = rw (e, previous) (ground arith)

delete-eq :
    (g : Gap)
    → IsValid g
    → g.start < next g g.start
    → next g g.start ≤ g.start + (g.capacity - g.stop)
    → delete g ≡ record g { stop = g.stop + (next g g.start - g.start); dirty = true }
unfolding delete sub_size add_size
delete-eq g v h k = ground arith

-- On a valid buffer whose cursor is not at the end of the text, `tc_gap_delete` removes exactly
-- the bytes from the cursor to the end of the character behind it.
pub delete_lem :
    (g : Gap)
    → IsValid g
    → g.start < length (contents g)
    → EndsAfter (contents g) g.start (next g g.start)
      × Removed g g.start (next g g.start) (delete g)
delete_lem g v h = (
  e,
  rw (delete-eq g v e.above (omega (arith, e.within, length-contents g))) (record {
    valid = omega (arith, e.above, e.within, length-contents g);
    at = refl;
    kept =
        contents-wider g (next g g.start - g.start) (omega (arith, e.within, length-contents g))
        ∙ ap (λ k. take g.start (contents g) ++ drop k (contents g))
            {x = g.start + (next g g.start - g.start)} {y = next g g.start}
            (omega (arith, e.above));
    mark = ground (arith, e.above);
  }),
)
  where
    e : EndsAfter (contents g) g.start (next g g.start)
    e = EndsAfter-next g v g.start h

delete-end : (g : Gap) → IsValid g → length (contents g) ≤ g.start → delete g ≡ g
unfolding delete sub_size add_size
delete-end g v h = ground (arith, next-end g v g.start h)
