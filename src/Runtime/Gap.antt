-- ===== src/Runtime/Gap.antt =====
-- runtime/gapbuffer.c: the text buffer of the editor, a block of bytes with a gap at the cursor.
-- The operations that walk over the text are in Gap/Cursor.antt, those on lines in Gap/Lines.antt.
pub mod Valid
pub mod Seek
pub mod Edit
pub mod Create
pub mod Examples
pub mod Cursor
pub mod Lines
use tiny_cplus.Prelude.{
  ℕ, zero, suc, ◌+◌, ◌-◌, ◌^◌, Bool, true, false, ◌||◌, List, [], ◌∷◌, ◌++◌, Option, none, some,
  ltb, ◌==◌, if◌then◌else◌, length,
}
use mathlib.Core.Option
use tiny_cplus.Machine.{add_size, sub_size, mul_size}
use tiny_cplus.Machine.Block.{Block, Malloc, copy_block, copy_bytes, read}

-- `TcGap`. The bytes of the text are those before `start` and those from `stop` on.
pub record Gap : Type 0 where
  pub block : Block
  pub start : ℕ
  pub stop : ℕ
  pub capacity : ℕ
  pub dirty : Bool

-- 64u * 1024u * 1024u
abbrev pub limit : ℕ
limit = 2 ^ 26

pub size : Gap → ℕ
size g = sub_size g.capacity (sub_size g.stop g.start)

pub byte : Gap → ℕ → ℕ
byte g position =
    g.block (if ltb position g.start then position else sub_size (add_size position g.stop) g.start)

-- The two memmove calls of `tc_gap_seek_impl`, at a position that is no more than the size.
seek_within : Gap → ℕ → Gap
seek_within g position =
    if ltb position g.start
    then (let n = sub_size g.start position in
        record g {
          block = copy_block g.block (sub_size g.stop n) g.block position n;
          start = sub_size g.start n;
          stop = sub_size g.stop n;
        })
    else if ltb g.start position
    then (let n = sub_size position g.start in
        record g {
          block = copy_block g.block g.start g.block g.stop n;
          start = add_size g.start n;
          stop = add_size g.stop n;
        })
    else g

pub seek : Gap → ℕ → Gap
seek g position = seek_within g (if ltb (size g) position then size g else position)

-- How `tc_gap_create` ends: tc_panic out of memory, NULL, or a buffer.
pub data Created : Type 0 where
  panic null : Created
  handle : Gap → Created

-- sizeof(TcGap) with 8-byte pointers
abbrev sizeof_gap : ℕ
sizeof_gap = 40

opened : List ℕ → Gap
opened input =
    let capacity = add_size (length input) 128 in
    let stop = sub_size capacity (length input) in
    record {
      block = copy_bytes (λ _. 0) stop input;
      start = 0;
      stop = stop;
      capacity = capacity;
      dirty = false;
    }

-- `calloc` says whether the zeroed allocation of so many bytes succeeds.
pub create : (ℕ → Bool) → List ℕ → Created
create calloc input =
    if calloc sizeof_gap
    then (if ltb limit (length input)
        then null
        else if calloc (add_size (length input) 128)
        then handle (opened input)
        else panic)
    else panic

-- The capacity that `tc_gap_insert` asks for when the gap is too short for `n` bytes.
pub grown : Gap → ℕ → ℕ
grown g n =
    let doubled = mul_size g.capacity 2 in
    let needed = add_size (add_size (size g) n) 128 in
    if ltb doubled needed then needed else doubled

-- The text moved to a fresh block of that capacity.
moved : Gap → ℕ → Block → Gap
moved g capacity fresh =
    let tail = sub_size g.capacity g.stop in
    record g {
      block =
          copy_block (copy_block fresh 0 g.block 0 g.start) (sub_size capacity tail) g.block g.stop
            tail;
      stop = sub_size capacity tail;
      capacity = capacity;
    }

-- The memcpy into the gap; an empty input leaves the buffer clean.
filled : Gap → List ℕ → Gap
filled g [] = g
filled g (b ∷ bytes) = record g {
  block = copy_bytes g.block g.start (b ∷ bytes);
  start = add_size g.start (length (b ∷ bytes));
  dirty = true;
}

pub insert : Malloc → Gap → List ℕ → ℕ × Gap
insert malloc g input =
    if ltb (sub_size limit (size g)) (length input)
    then (8, g)
    else if ltb (sub_size g.stop g.start) (length input)
    then elim (malloc (grown g (length input))) [
      | none ↦ (8, g)
      | some fresh ↦ (0, filled (moved g (grown g (length input)) fresh) input)
    ]
    else (0, filled g input)

-- The two memcpy calls of `tc_gap_text` into a fresh block, of which the caller gets `size` bytes.
copied : Gap → Block → List ℕ
copied g fresh =
    let left = copy_block fresh 0 g.block 0 g.start in
    read (copy_block left g.start g.block g.stop (sub_size g.capacity g.stop)) 0 (size g)

pub text : Malloc → Gap → Option (List ℕ)
text malloc g = Option.map (copied g) (malloc (add_size (size g) 1))

unfoldable pub clean : Gap → Gap
clean g = record g { dirty = false }
