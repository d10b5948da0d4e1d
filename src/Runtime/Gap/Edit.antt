-- ===== src/Runtime/Gap/Edit.antt =====
-- Inserting at the cursor.
use tiny_cplus.Prelude.{
  ℕ, ◌+◌, ◌-◌, ◌*◌, ◌<◌, ◌≤◌, ◌≡◌, refl, sym, ap, ◌∙◌, List, [], ◌∷◌, ◌++◌, append-nil, ◌==◌, arith,
  inl, inr, length, ltb, Bool-cases, Option-cases, ltb→lt, ltb→ge, true, false, if◌then◌else◌, none,
  ◌⊎◌,
}
use mathlib.Core.Path.{ap₂}
use tiny_cplus.Machine.{add_size, sub_size, mul_size}
use tiny_cplus.Machine.Block.{
  Block, Malloc, copy_block, copy_bytes, read, read-append, read-copy_block, read-copy_block_apart,
  read-copy_bytes, read-copy_bytes_apart,
}
use tiny_cplus.Runtime.Gap.{Gap, limit, size, grown, moved, filled, insert}
use tiny_cplus.Runtime.Gap.Valid.{
  IsValid, before, after, contents, size-eq, length-contents, size-length,
}

-- What putting `input` in at the cursor does.
pub record Inserted (g : Gap) (input : List ℕ) (h : Gap) : Type 0 where
  pub valid : IsValid h
  pub at : h.start ≡ g.start + length input
  pub head : before h ≡ before g ++ input
  pub tail : after h ≡ after g
  pub mark : h.dirty ≡ (if length input == 0 then g.dirty else true)

-- With no wrap-around, the copy into the gap and the move to a fresh block.
filled_nil : (g : Gap) → filled g [] ≡ g
unfolding filled
filled_nil g = refl

filled_cons :
    (g : Gap) (b : ℕ) (bytes : List ℕ)
    → IsValid g
    → length (b ∷ bytes) ≤ g.stop - g.start
    → filled g (b ∷ bytes) ≡ record g {
      block = copy_bytes g.block g.start (b ∷ bytes);
      start = g.start + length (b ∷ bytes);
      dirty = true;
    }
unfolding filled add_size
filled_cons g b bytes v fits = ground arith

moved-eq :
    (g : Gap) (capacity : ℕ) (fresh : Block)
    → IsValid g
    → g.capacity ≤ capacity
    → capacity ≤ 2 * limit
    → moved g capacity fresh ≡ record g {
      block =
          copy_block
            (copy_block fresh 0 g.block 0 g.start)
            (capacity - (g.capacity - g.stop))
            g.block
            g.stop
            (g.capacity - g.stop);
      stop = capacity - (g.capacity - g.stop);
      capacity = capacity;
    }
unfolding moved sub_size
moved-eq g capacity fresh v more small = ground arith

Inserted-filled :
    (g : Gap) (input : List ℕ)
    → IsValid g
    → length input ≤ g.stop - g.start
    → g.start + length input + (g.capacity - g.stop) ≤ limit
    → Inserted g input (filled g input)
Inserted-filled g [] v fits small = rw (filled_nil g) (record {
  valid = v;
  at = omega arith;
  head = sym (append-nil (before g));
  tail = refl;
  mark = refl;
})
Inserted-filled g (b ∷ bytes) v fits small = rw (filled_cons g b bytes v fits) (record {
  valid = omega arith;
  at = refl;
  head =
      read-append (copy_bytes g.block g.start (b ∷ bytes)) 0 g.start (length (b ∷ bytes))
      ∙ ap₂ ◌++◌ (read-copy_bytes_apart g.block g.start (b ∷ bytes) 0 g.start (inl (omega arith))) (
          ap (λ k. read (copy_bytes g.block g.start (b ∷ bytes)) k (length (b ∷ bytes)))
            {x = 0 + g.start} {y = g.start} (omega arith)
          ∙ read-copy_bytes g.block g.start (b ∷ bytes));
  tail =
      read-copy_bytes_apart g.block g.start (b ∷ bytes) g.stop (g.capacity - g.stop)
        (inr (omega arith));
  mark = ground arith;
})

record Moved (g : Gap) (capacity : ℕ) (h : Gap) : Type 0 where
  valid : IsValid h
  at : h.start ≡ g.start
  same_capacity : h.capacity ≡ capacity
  same_dirty : h.dirty ≡ g.dirty
  head : before h ≡ before g
  tail : after h ≡ after g
  tail_length : h.capacity - h.stop ≡ g.capacity - g.stop

Moved-moved :
    (g : Gap) (capacity : ℕ) (fresh : Block)
    → IsValid g
    → g.capacity ≤ capacity
    → capacity ≤ 2 * limit
    → Moved g capacity (moved g capacity fresh)
Moved-moved g capacity fresh v more small = rw (moved-eq g capacity fresh v more small) (record {
  valid = omega arith;
  at = refl;
  same_capacity = refl;
  same_dirty = refl;
  head =
      read-copy_block_apart left (capacity - rest) g.block g.stop rest 0 g.start (inl (omega arith))
      ∙ read-copy_block fresh 0 g.block 0 g.start;
  tail =
      ap (read both (capacity - rest)) {x = capacity - (capacity - rest)} {y = rest} (omega arith)
      ∙ read-copy_block left (capacity - rest) g.block g.stop rest;
  tail_length = omega arith;
})
  where
    rest : ℕ
    rest = g.capacity - g.stop

    left : Block
    left = copy_block fresh 0 g.block 0 g.start

    both : Block
    both = copy_block left (capacity - rest) g.block g.stop rest

grown_bounds :
    (g : Gap) (n : ℕ)
    → IsValid g
    → g.start + n + (g.capacity - g.stop) ≤ limit
    → g.stop - g.start < n
    → (g.capacity ≤ grown g n)
      × (grown g n ≤ 2 * limit)
      × (g.start + n + (g.capacity - g.stop) ≤ grown g n)
unfolding grown mul_size add_size
grown_bounds g n v small short = ground (arith, size-eq g v)

-- The insertion after the text has moved to a block of the grown capacity.
Inserted-moved :
    (g : Gap) (input : List ℕ) (fresh : Block)
    → IsValid g
    → g.stop - g.start < length input
    → g.start + length input + (g.capacity - g.stop) ≤ limit
    → Inserted g input (filled (moved g (grown g (length input)) fresh) input)
Inserted-moved g input fresh v short small =
    let (more, within, fits) = grown_bounds g (length input) v small short in
    let m = Moved-moved g (grown g (length input)) fresh v more within in
    let i =
      Inserted-filled (moved g (grown g (length input)) fresh) input m.valid
        (omega (arith, m.at, m.same_capacity, m.tail_length, m.valid.inside, m.valid.gap))
        (omega (arith, m.at, m.tail_length)) in
    record {
      valid = i.valid;
      at = i.at ∙ ap (λ k. k + length input) m.at;
      head = i.head ∙ ap (λ l. l ++ input) m.head;
      tail = i.tail ∙ m.tail;
      mark = i.mark ∙ ap (λ d. if length input == 0 then d else true) m.same_dirty;
    }

too_long :
    (g : Gap) (n : ℕ)
    → IsValid g
    → ltb (sub_size limit (size g)) n ≡ true
    → limit < length (contents g) + n
unfolding sub_size
too_long g n v h =
    omega (arith, size-length g v, length-contents g, ltb→lt (sub_size limit (size g)) n h)

fits :
    (g : Gap) (n : ℕ)
    → IsValid g
    → ltb (sub_size limit (size g)) n ≡ false
    → g.start + n + (g.capacity - g.stop) ≤ limit
unfolding sub_size
fits g n v h = omega (arith, size-eq g v, ltb→ge (sub_size limit (size g)) n h)

gap_short :
    (g : Gap) (n : ℕ) → IsValid g → ltb (sub_size g.stop g.start) n ≡ true → g.stop - g.start < n
unfolding sub_size
gap_short g n v h = omega (arith, ltb→lt (sub_size g.stop g.start) n h)

gap_long :
    (g : Gap) (n : ℕ) → IsValid g → ltb (sub_size g.stop g.start) n ≡ false → n ≤ g.stop - g.start
unfolding sub_size
gap_long g n v h = omega (arith, ltb→ge (sub_size g.stop g.start) n h)

-- The two ways in which `tc_gap_insert` refuses.
abbrev pub Refused : Malloc → Gap → List ℕ → Type 0
Refused malloc g input =
    (limit < length (contents g) + length input)
    ⊎ ((g.stop - g.start < length input) × (malloc (grown g (length input)) ≡ none))

-- On a valid buffer `tc_gap_insert` either refuses with 8, and then the text would pass the limit
-- or the gap is too short and malloc fails, and nothing changes; or it returns 0, and the input
-- stands between the bytes before the cursor and those behind it, the cursor is behind the input,
-- the buffer is valid, and it is dirty if the input is not empty.
pub insert_lem :
    (malloc : Malloc) (g : Gap) (input : List ℕ)
    → IsValid g
    → ((insert malloc g input ≡ (8, g)) × Refused malloc g input)
      ⊎ (((insert malloc g input).0 ≡ 0)
          × Inserted g input (insert malloc g input).1
          × (length (contents g) + length input ≤ limit))
unfolding insert
insert_lem malloc g input v = elim (Bool-cases (ltb (sub_size limit (size g)) (length input))) [
  | inl long ↦ inl (rw long, inl (too_long g (length input) v long))
  | inr fine ↦ elim (Bool-cases (ltb (sub_size g.stop g.start) (length input))) [
    | inl short ↦ elim (Option-cases (malloc (grown g (length input)))) [
      | inl refused ↦
          inl (rw (fine, short, refused), inr (gap_short g (length input) v short, refused))
      | inr (fresh, given) ↦
          rw (fine, short, given)
            (inr (
              refl,
              Inserted-moved g input fresh v (gap_short g (length input) v short)
                  (fits g (length input) v fine),
              omega (arith, length-contents g, fits g (length input) v fine),
            ))
    ]
    | inr long ↦
        rw (fine, long)
          (inr (
            refl,
            Inserted-filled g input v (gap_long g (length input) v long)
                (omega (arith, fits g (length input) v fine)),
            omega (arith, length-contents g, fits g (length input) v fine),
          ))
  ]
]
