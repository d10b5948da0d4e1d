-- ===== src/Runtime/Future.antt =====
-- runtime/concurrent.c: `TcFuture` and its `TcContinuation`s. Each operation is one critical section
-- of the future's mutex; where a reader would wait on the condition variable, it answers none. What a
-- call hands over behind its critical section, it hands over one by one, by `hand_over`.
pub mod History
pub mod HandOver
pub mod Winner
pub mod Once
pub mod Examples
use tiny_cplus.Prelude.{
  ℕ, ◌-◌, Bool, true, false, Option, none, some, List, [], ◌∷◌, ltb, ◌==◌, if◌then◌else◌,
}
use tiny_cplus.Prelude.Int.{ℤ, pos}
use tiny_cplus.Machine.{word, add_size, sub_size}
use tiny_cplus.Machine.Block.{Block, copy_block}

-- `pool` is whether there is a pool; the action and its argument are one number.
pub record Continuation : Type 0 where
  pub pool : Option ℕ
  pub action : ℕ

-- `continuations` is the linked list from its head on.
pub record Future : Type 0 where
  pub refs : ℕ
  pub size : ℕ
  pub complete : Bool
  pub error : ℤ
  pub continuations : List Continuation
  pub bytes : Block

-- `tc_future_create`; `header` is `sizeof(TcFuture)`, and `memory` whether calloc finds memory.
unfoldable pub create : ℕ → Bool → ℕ → Option Future
create header memory size =
    if ltb (word - 1 - header) size
    then none
    else if memory
    then some (record {
      refs = 1;
      size = size;
      complete = false;
      error = pos 0;
      continuations = [];
      bytes = λ i. 0;
    })
    else none

-- `tc_future_retain`
unfoldable pub retain : Future → Future
retain f = record f { refs = add_size f.refs 1 }

-- `tc_future_release` of a future that is not NULL, and whether it is freed
unfoldable pub release : Future → Bool × Future
release f = (sub_size f.refs 1 == 0, record f { refs = sub_size f.refs 1 })

-- What becomes of a continuation: its action is called at once, or its pool has accepted it.
pub data Handed : Type 0 where
  called pooled : Continuation → Handed

-- `if (!pool || tc_pool_submit(pool, ...)) action(argument);`, where `submits` is what tc_pool_submit
-- answers to a pool, an action and an argument
unfoldable pub hand_to : (ℕ → ℕ → ℕ) → Option ℕ → Continuation → Handed
hand_to submits none k = called k
hand_to submits (some p) k = if submits p k.action == 0 then pooled k else called k

abbrev pub hand_over : (ℕ → ℕ → ℕ) → Continuation → Handed
hand_over submits k = hand_to submits k.pool k

-- `if (value && f->size) memcpy(f->data, value, f->size);`
unfoldable pub store : Option Block → ℕ → Block → Block
store none size bytes = bytes
store (some v) size bytes = if size == 0 then bytes else copy_block bytes 0 v 0 size

-- `tc_future_complete`: the code, the future, and the list that the call takes. The call hands the
-- list over, from its head on, when it has left the critical section.
unfoldable pub complete : Option Block → ℤ → Future → ℕ × Future × List Continuation
complete value error f = if f.complete then (1, f, []) else (
  0,
  record f {
    bytes = store value f.size f.bytes;
    complete = true;
    error = error;
    continuations = [];
  },
  f.continuations,
)

-- `tc_future_ready`
unfoldable pub ready : Future → Bool
ready f = f.complete

-- `tc_future_get` to the block of this content or to NULL: the block's content after it and the
-- error; none where it waits
unfoldable pub get : Option Block → Future → Option (Option Block × ℤ)
get none f = if f.complete then some (none, f.error) else none
get (some d) f =
    if f.complete
    then some (some (if f.size == 0 then d else copy_block d 0 f.bytes 0 f.size), f.error)
    else none

-- `tc_future_then`, where `memory` is whether malloc finds memory: the code, the future, and what the
-- call hands over itself when it has left the critical section
unfoldable pub then_do : Bool → Continuation → Future → ℕ × Future × List Continuation
then_do memory k f =
    if memory
    then if f.complete
      then (0, f, k ∷ [])
      else (0, record f { continuations = k ∷ f.continuations }, [])
    else (2, f, [])
