-- ===== src/Runtime/Gap/Lines/Cut.antt =====
-- `tc_gap_cut_line`: the line of the cursor leaves the text, with its newline.
use tiny_cplus.Prelude.{
  ℕ, ◌+◌, ◌-◌, ◌≤◌, ◌≡◌, refl, ap, ◌∙◌, inl, inr, true, List, ◌++◌, arith, Option, none, some,
  length, take, drop, if◌then◌else◌, ltb, Option-cases,
}
use mathlib.Core.Path.{ap₂, subst}
use tiny_cplus.Machine.{add_size}
use tiny_cplus.Machine.Block.{Block, Malloc, read}
use tiny_cplus.Runtime.Gap.{Gap, byte, seek}
use tiny_cplus.Runtime.Gap.Valid.{IsValid, contents, size-length, length-contents, read-byte}
use tiny_cplus.Runtime.Gap.Seek.{Sought, seek_to}
use tiny_cplus.Runtime.Gap.Cursor.Deletion.{Removed, contents-wider}
use tiny_cplus.Runtime.Gap.Lines.Bounds.{
  BeginsLine, EndsLine, BeginsLine-line_start, EndsLine-line_end,
}
use tiny_cplus.Runtime.Gap.Lines.{line_start, line_end, cut_end, cut_line}

-- `to` is behind the newline that ends the line of `p`, or at the end of the text without one.
pub record ClosesLine (l : List ℕ) (p to : ℕ) : Type 0 where
  pub stop : ℕ
  pub ends : EndsLine l p stop
  pub after : to ≡ (if ltb stop (length l) then stop + 1 else stop)

-- A cut that gets its memory takes the bytes from the start of the line to its end out of the
-- text and hands them out; one that does not changes nothing.
abbrev pub Cuts : Malloc → Gap → Option (List ℕ) × Gap → Type 0
Cuts malloc g (none, h) = (h ≡ g) × (malloc (cut_end g - line_start g g.start + 1) ≡ none)
Cuts malloc g (some bytes, h) =
    Removed g (line_start g g.start) (cut_end g) h
    × (bytes ≡ take (cut_end g - line_start g g.start) (drop (line_start g g.start) (contents g)))

cut_none :
    (malloc : Malloc) (g : Gap)
    → malloc (cut_end g - line_start g g.start + 1) ≡ none
    → cut_line malloc g ≡ (none, g)
unfolding cut_line
cut_none malloc g e = rw (e, cut_line)

-- The buffer after a cut of `n` bytes behind the cursor.
abbrev shortened : Gap → ℕ → Gap
shortened h n = record h { stop = add_size h.stop n; dirty = if ltb 0 n then true else h.dirty }

cut_some :
    (malloc : Malloc) (g : Gap) {fresh : Block}
    → malloc (cut_end g - line_start g g.start + 1) ≡ some fresh
    → cut_line malloc g ≡ (
      some (read (byte g) (line_start g g.start) (cut_end g - line_start g g.start)),
      shortened (seek g (line_start g g.start)) (cut_end g - line_start g g.start),
    )
unfolding cut_line
cut_some malloc g e = rw (e, cut_line)

module _ (g : Gap) (v : IsValid g) where
  begins : BeginsLine (contents g) (line_start g g.start) g.start
  begins = BeginsLine-line_start g v g.start (omega (arith, length-contents g))

  pub ClosesLine-cut_end : ClosesLine (contents g) g.start (cut_end g)
  unfolding cut_end
  ClosesLine-cut_end = record {
    stop = line_end g g.start;
    ends = EndsLine-line_end g v g.start (omega (arith, length-contents g));
    after =
        ap (λ n. if ltb (line_end g g.start) n then line_end g g.start + 1 else line_end g g.start)
          (size-length g v);
  }

  cut_bounds : (line_start g g.start ≤ cut_end g) × (cut_end g ≤ length (contents g))
  cut_bounds = ground (arith, begins.below, c.after, c.ends.above, c.ends.within)
    where
      c : ClosesLine (contents g) g.start (cut_end g)
      c = ClosesLine-cut_end

  -- Giving up `n` bytes behind a cursor that has moved to `p`.
  Removed-from :
      (h : Gap) (p n : ℕ)
      → Sought g p h
      → p + n ≤ length (contents g)
      → Removed g p (p + n) (shortened h n)
  unfolding add_size
  Removed-from h p n s le = record {
    valid = omega (arith, s.valid.gap, s.valid.inside, s.valid.small, s.valid.short, room);
    at = s.at;
    kept =
        ap (λ k. read h.block 0 h.start ++ read h.block k (h.capacity - k)) {x = add_size h.stop n}
          {y = h.stop + n} (omega (arith, s.valid.inside, s.valid.small, room))
        ∙ contents-wider h n room
        ∙ ap₂ (λ l k. take k l ++ drop (k + n) l) s.kept s.at;
    mark = ground (arith, s.same_dirty);
  }
    where
      room : n ≤ h.capacity - h.stop
      room = omega (arith, s.at, ap length s.kept, length-contents h)

  Cuts-cut_line : (malloc : Malloc) → Cuts malloc g (cut_line malloc g)
  Cuts-cut_line malloc = elim (Option-cases (malloc (n + 1))) [
    | inl refused ↦ rw (cut_none malloc g refused) (refl, refused)
    | inr (fresh, given) ↦
        rw (cut_some malloc g given) (whole, read-byte g start n v (omega (arith, cut_bounds)))
  ]
    where
      start : ℕ
      start = line_start g g.start

      n : ℕ
      n = cut_end g - start

      h : Gap
      h = seek g start

      whole : Removed g start (cut_end g) (shortened h n)
      whole =
          subst (λ k. Removed g start k (shortened h n)) {x = start + n} {y = cut_end g}
            (omega (arith, cut_bounds))
            (Removed-from h start n (seek_to g start v (omega (arith, cut_bounds)))
              (omega (arith, cut_bounds)))

-- On a valid buffer `tc_gap_cut_line` hands out the line of the cursor, from its beginning to
-- behind the newline that ends it (or to the end of the text), and removes exactly those bytes,
-- with the cursor at the beginning; without memory for the copy nothing changes.
pub cut_line_lem :
    (malloc : Malloc) (g : Gap)
    → IsValid g
    → BeginsLine (contents g) (line_start g g.start) g.start
      × ClosesLine (contents g) g.start (cut_end g)
      × Cuts malloc g (cut_line malloc g)
cut_line_lem malloc g v = (begins g v, ClosesLine-cut_end g v, Cuts-cut_line g v malloc)
