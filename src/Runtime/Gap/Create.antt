-- ===== src/Runtime/Gap/Create.antt =====
-- Creating a buffer, and handing the whole text out.
use tiny_cplus.Prelude.{
  ℕ, ◌+◌, ◌-◌, ◌<◌, ◌≤◌, ◌≡◌, refl, ap, ◌∙◌, List, ◌++◌, arith, inl, inr, length, ltb, Bool,
  Bool-cases, ltb→lt, ltb→ge, false, ◌⊎◌,
}
use mathlib.Core.Path.{ap₂, fun_ext}
use mathlib.Core.Option
use tiny_cplus.Machine.{add_size, sub_size, add_size-eq}
use tiny_cplus.Machine.Block.{
  Block, Malloc, copy_block, copy_bytes, read, read-append, read-copy_block, read-copy_block_apart,
  read-copy_bytes,
}
use tiny_cplus.Runtime.Gap.{
  Gap, limit, size, text, create, copied, opened, handle, Created, panic, null,
}
use tiny_cplus.Runtime.Gap.Valid.{IsValid, contents, size-eq, length-contents}

copied_plain :
    (g : Gap) (fresh : Block)
    → IsValid g
    → copied g fresh
      ≡ read
          (copy_block
            (copy_block fresh 0 g.block 0 g.start)
            g.start
            g.block
            g.stop
            (g.capacity - g.stop))
          0
          (g.start + (g.capacity - g.stop))
unfolding copied sub_size
copied_plain g fresh v = ground (arith, size-eq g v)

copied-eq : (g : Gap) (fresh : Block) → IsValid g → copied g fresh ≡ contents g
copied-eq g fresh v =
    copied_plain g fresh v
    ∙ read-append both 0 g.start rest
    ∙ ap₂ ◌++◌
        (read-copy_block_apart left g.start g.block g.stop rest 0 g.start (inl (omega arith))
          ∙ read-copy_block fresh 0 g.block 0 g.start)
        (ap (λ k. read both k rest) {x = 0 + g.start} {y = g.start} (omega arith)
          ∙ read-copy_block left g.start g.block g.stop rest)
  where
    rest : ℕ
    rest = g.capacity - g.stop

    left : Block
    left = copy_block fresh 0 g.block 0 g.start

    both : Block
    both = copy_block left g.start g.block g.stop rest

asked : (g : Gap) → IsValid g → add_size (size g) 1 ≡ length (contents g) + 1
unfolding add_size
asked g v = omega (arith, size-eq g v, length-contents g)

-- On a valid buffer `tc_gap_text` hands out the text, the bytes before the cursor and then those
-- behind it, if malloc grants it a byte more than the text has, and NULL otherwise.
pub text_lem :
    (malloc : Malloc) (g : Gap)
    → IsValid g
    → text malloc g ≡ Option.map (λ _. contents g) (malloc (length (contents g) + 1))
unfolding text
text_lem malloc g v = rw (asked g v) (
    ap (λ f. Option.map f (malloc (length (contents g) + 1)))
      (fun_ext (λ fresh. copied-eq g fresh v)))

-- What a call of `tc_gap_create` may return, and when.
abbrev pub Creates : (ℕ → Bool) → List ℕ → Created → Type 0
Creates calloc input panic = (calloc 40 ≡ false) ⊎ (calloc (length input + 128) ≡ false)
Creates calloc input null = limit < length input
Creates calloc input (handle g) =
    IsValid g × (contents g ≡ input) × (g.start ≡ 0) × (g.dirty ≡ false) × (length input ≤ limit)

opened-eq :
    (input : List ℕ)
    → length input ≤ limit
    → opened input ≡ record {
      block = copy_bytes (λ _. 0) 128 input;
      start = 0;
      stop = 128;
      capacity = length input + 128;
      dirty = false;
    }
unfolding opened add_size sub_size
opened-eq input h = ground arith

Creates-opened :
    (calloc : ℕ → Bool) (input : List ℕ)
    → length input ≤ limit
    → Creates calloc input (handle (opened input))
unfolding read
Creates-opened calloc input h = rw (opened-eq input h) (
  omega arith,
  ap (read (copy_bytes (λ _. 0) 128 input) 128) {x = length input + 128 - 128} {y = length input}
        (omega arith)
      ∙ read-copy_bytes (λ _. 0) 128 input,
  refl,
  refl,
  h,
)

-- `tc_gap_create` panics only where an allocation fails, returns NULL only for an input above the
-- limit, and otherwise returns a valid, clean buffer of that text with the cursor at its start.
pub create_lem : (calloc : ℕ → Bool) (input : List ℕ) → Creates calloc input (create calloc input)
unfolding create
create_lem calloc input = elim (Bool-cases (calloc 40)) [
  | inr refused ↦ rw refused (inl refused)
  | inl first ↦ elim (Bool-cases (ltb limit (length input))) [
    | inl long ↦ rw (first, long) (ltb→lt limit (length input) long)
    | inr fine ↦ elim (Bool-cases (calloc (length input + 128))) [
      | inr refused ↦ rw (first, fine, room fine, refused) (inr refused)
      | inl second ↦
          rw (first, fine, room fine, second)
            (Creates-opened calloc input (ltb→ge limit (length input) fine))
    ]
  ]
]
  where
    room : ltb limit (length input) ≡ false → add_size (length input) 128 ≡ length input + 128
    room fine = add_size-eq (length input) 128 (omega (arith, ltb→ge limit (length input) fine))
