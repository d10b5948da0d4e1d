-- ===== src/Runtime/Channel.antt =====
-- runtime/concurrent.c: the bounded channel, `TcChannel`. Each operation is one critical section of
-- the channel's mutex; where it would wait on a condition variable, the answer is `waits`.
pub mod Valid
pub mod Ring
pub mod Queue
pub mod History
pub mod Examples
use tiny_cplus.Prelude.{
  ℕ, ◌-◌, ◌/◌, ◌%◌, Bool, true, false, not, ◌&&◌, ◌||◌, List, Option, none, some, ltb, ◌==◌,
  if◌then◌else◌,
}
use tiny_cplus.Machine.{add_size, sub_size, mul_size, word}
use tiny_cplus.Machine.Block.{Block, copy_bytes, read}

pub record Channel : Type 0 where
  pub capacity : ℕ
  pub element_size : ℕ
  pub head : ℕ
  pub count : ℕ
  pub closed : Bool
  pub block : Block

abbrev fresh : ℕ → ℕ → Block → Channel
fresh capacity size block = record {
  capacity = capacity;
  element_size = size;
  head = 0;
  count = 0;
  closed = false;
  block = block;
}

-- `tc_channel_create`: `calloc` says whether the struct is granted, `malloc` gives the data block.
-- `size > SIZE_MAX` is never true of a uint64_t where size_t has 64 bits.
pub create : Bool → (ℕ → Option Block) → ℕ → ℕ → Option Channel
create calloc malloc capacity size =
    if capacity == 0 || size == 0 || ltb ((word - 1) / size) capacity
    then none
    else if not calloc
    then none
    else elim (malloc (mul_size capacity size)) [
      | none ↦ none
      | some block ↦ some (fresh capacity size block)
    ]

-- How one run of a critical section ends: on the condition variable, with the status 1 of a
-- closed channel, or with status 0 and a result.
pub data Outcome {ℓ} (A : Type ℓ) : Type ℓ where
  waits closed : Outcome A
  ok : A → Outcome A

abbrev pub outcome_map {ℓ κ} : {A : Type ℓ} {B : Type κ} → (A → B) → Outcome A → Outcome B
outcome_map f waits = waits
outcome_map f closed = closed
outcome_map f (ok a) = ok (f a)

unfoldable pub tail : Channel → ℕ
tail c = add_size c.head c.count % c.capacity

-- `tc_channel_send`; `value` is the element's bytes.
unfoldable pub send : Channel → List ℕ → Outcome Channel
send c value =
    if c.count == c.capacity && not c.closed
    then waits
    else if c.closed
    then closed
    else ok (record c {
      block = copy_bytes c.block (mul_size (tail c) c.element_size) value;
      count = add_size c.count 1;
    })

-- `tc_channel_receive`
unfoldable pub receive : Channel → Outcome (List ℕ × Channel)
receive c =
    if c.count == 0 && not c.closed
    then waits
    else if c.count == 0
    then closed
    else ok (
      read c.block (mul_size c.head c.element_size) c.element_size,
      record c { head = add_size c.head 1 % c.capacity; count = sub_size c.count 1 },
    )

unfoldable pub close : Channel → Channel
close c = record c { closed = true }
