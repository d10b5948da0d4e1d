-- ===== src/Runtime/Gap/Seek.antt =====
-- Moving the gap: `tc_gap_seek_impl` and its two memmove calls.
use tiny_cplus.Prelude.{
  ℕ, ◌+◌, ◌-◌, ◌<◌, ◌≤◌, ◌≡◌, refl, sym, ap, ◌∙◌, ◌++◌, append_assoc, arith, min, inl, inr, length,
  ltb, Bool-cases, ltb→lt, ltb→ge, false, if◌then◌else◌,
}
use mathlib.Core.Path.{ap₂}
use tiny_cplus.Machine.{add_size, sub_size}
use tiny_cplus.Machine.Block.{
  Block, copy_block, read, read-append, read-copy_block, read-copy_block_apart,
}
use tiny_cplus.Runtime.Gap.{Gap, size, seek_within, seek}
use tiny_cplus.Runtime.Gap.Valid.{IsValid, contents, length-contents, size-length}

-- Moving `n` bytes from the left of the gap to its right keeps the text.
left_lem :
    (b : Block) (p n stop rest : ℕ)
    → p + n ≤ stop
    → read (copy_block b (stop - n) b p n) 0 p
        ++ read (copy_block b (stop - n) b p n) (stop - n) (n + rest)
      ≡ read b 0 (p + n) ++ read b stop rest
left_lem b p n stop rest h =
    ap₂ ◌++◌ (read-copy_block_apart b (stop - n) b p n 0 p (inl (omega arith))) (
      read-append (copy_block b (stop - n) b p n) (stop - n) n rest
      ∙ ap₂ ◌++◌ (read-copy_block b (stop - n) b p n)
          (read-copy_block_apart b (stop - n) b p n (stop - n + n) rest (inr (omega arith))))
    ∙ sym (append_assoc (read b 0 p) (read b p n) (read b (stop - n + n) rest))
    ∙ ap₂ ◌++◌
        (ap (λ k. read b 0 p ++ read b k n) {x = p} {y = 0 + p} (omega arith)
          ∙ sym (read-append b 0 p n))
        (ap (λ k. read b k rest) (omega arith))

-- Moving `n` bytes from the right of the gap to its left keeps the text, also where they overlap.
right_lem :
    (b : Block) (start n stop rest : ℕ)
    → start ≤ stop
    → read (copy_block b start b stop n) 0 (start + n)
        ++ read (copy_block b start b stop n) (stop + n) rest
      ≡ read b 0 start ++ read b stop (n + rest)
right_lem b start n stop rest h =
    ap₂ ◌++◌
      (read-append (copy_block b start b stop n) 0 start n
        ∙ ap₂ ◌++◌ (read-copy_block_apart b start b stop n 0 start (inl (omega arith))) (
            ap (λ k. read (copy_block b start b stop n) k n) {x = 0 + start} {y = start}
              (omega arith)
            ∙ read-copy_block b start b stop n))
      (read-copy_block_apart b start b stop n (stop + n) rest (inr (omega arith)))
    ∙ append_assoc (read b 0 start) (read b stop n) (read b (stop + n) rest)
    ∙ ap (λ l. read b 0 start ++ l) (sym (read-append b stop n rest))

-- With no wrap-around, the two moves.
seek_left :
    (g : Gap) (p : ℕ)
    → IsValid g
    → p < g.start
    → seek_within g p ≡ record g {
      block = copy_block g.block (g.stop - (g.start - p)) g.block p (g.start - p);
      start = p;
      stop = g.stop - (g.start - p);
    }
unfolding seek_within sub_size
seek_left g p v h = ground arith

seek_right :
    (g : Gap) (p : ℕ)
    → IsValid g
    → g.start < p
    → p ≤ g.start + (g.capacity - g.stop)
    → seek_within g p ≡ record g {
      block = copy_block g.block g.start g.block g.stop (p - g.start);
      start = p;
      stop = g.stop + (p - g.start);
    }
unfolding seek_within sub_size add_size
seek_right g p v h k = ground arith

-- What moving the cursor to `p` does: the text, its capacity and its dirty mark stay.
pub record Sought (g : Gap) (p : ℕ) (h : Gap) : Type 0 where
  pub valid : IsValid h
  pub at : h.start ≡ p
  pub kept : contents h ≡ contents g
  pub same_capacity : h.capacity ≡ g.capacity
  pub same_dirty : h.dirty ≡ g.dirty

Sought-left : (g : Gap) (p : ℕ) → IsValid g → p < g.start → Sought g p (seek_within g p)
Sought-left g p v h = rw (seek_left g p v h) (record {
  valid = omega arith;
  at = refl;
  kept =
      ap (λ k. read moved 0 p ++ read moved (g.stop - n) k) {x = g.capacity - (g.stop - n)}
        {y = n + (g.capacity - g.stop)} (omega arith)
      ∙ left_lem g.block p n g.stop (g.capacity - g.stop) (omega arith)
      ∙ ap (λ k. read g.block 0 k ++ read g.block g.stop (g.capacity - g.stop)) {x = p + n}
          {y = g.start} (omega arith);
  same_capacity = refl;
  same_dirty = refl;
})
  where
    n : ℕ
    n = g.start - p

    moved : Block
    moved = copy_block g.block (g.stop - n) g.block p n

Sought-right :
    (g : Gap) (p : ℕ)
    → IsValid g
    → g.start < p
    → p ≤ g.start + (g.capacity - g.stop)
    → Sought g p (seek_within g p)
Sought-right g p v h k = rw (seek_right g p v h k) (record {
  valid = omega arith;
  at = refl;
  kept =
      ap (λ j. read moved 0 j ++ read moved (g.stop + n) (g.capacity - (g.stop + n))) {x = p}
        {y = g.start + n} (omega arith)
      ∙ right_lem g.block g.start n g.stop (g.capacity - (g.stop + n)) (omega arith)
      ∙ ap (λ j. read g.block 0 g.start ++ read g.block g.stop j)
          {x = n + (g.capacity - (g.stop + n))} {y = g.capacity - g.stop} (omega arith);
  same_capacity = refl;
  same_dirty = refl;
})
  where
    n : ℕ
    n = p - g.start

    moved : Block
    moved = copy_block g.block g.start g.block g.stop n

Sought-within :
    (g : Gap) (p : ℕ)
    → IsValid g
    → p ≤ g.start + (g.capacity - g.stop)
    → Sought g p (seek_within g p)
Sought-within g p v k = elim (Bool-cases (ltb p g.start)) [
  | inl less ↦ Sought-left g p v (ltb→lt p g.start less)
  | inr ge ↦ elim (Bool-cases (ltb g.start p)) [
    | inl more ↦ Sought-right g p v (ltb→lt g.start p more) k
    | inr same ↦ rw (stay ge same) (record {
      valid = v;
      at = omega (arith, ltb→ge p g.start ge, ltb→ge g.start p same);
      kept = refl;
      same_capacity = refl;
      same_dirty = refl;
    })
  ]
]
  where
    stay : ltb p g.start ≡ false → ltb g.start p ≡ false → seek_within g p ≡ g
    stay a b = unfold seek_within in rw (a, b, seek_within)

-- Seeking a valid buffer puts the cursor at the position, or at the end of the text where the
-- position lies beyond it, and keeps the text, the capacity, the dirty mark and the invariant.
pub seek_lem : (g : Gap) (p : ℕ) → IsValid g → Sought g (min p (length (contents g))) (seek g p)
unfolding seek
seek_lem g p v =
    rw clamped (Sought-within g (min p (length (contents g))) v (omega (arith, length-contents g)))
  where
    clamped : (if ltb (size g) p then size g else p) ≡ min p (length (contents g))
    clamped = ground (arith, size-length g v)

pub seek_to : (g : Gap) (p : ℕ) → IsValid g → p ≤ length (contents g) → Sought g p (seek g p)
seek_to g p v h = let e : min p (length (contents g)) ≡ p = omega arith in rw e at (seek_lem g p v)
