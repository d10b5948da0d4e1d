-- ===== src/Runtime/Channel/Examples.antt =====
-- A channel of two elements of one byte each, and a run of it.
use Prim.Native.Nat.{compare, Ordering}
use tiny_cplus.Prelude.{
  ℕ, ◌<◌, ◌^◌, ◌≡◌, refl, true, false, List, [], ◌∷◌, Option, none, some, arith,
}
use tiny_cplus.Machine.Block.{Block, copy_bytes, read}
use tiny_cplus.Machine.{add_size, sub_size, mul_size}
use tiny_cplus.Runtime.Channel.{Channel, outcome_map, tail, send, receive, close}
use tiny_cplus.Runtime.Channel.Valid.{IsValid}
use tiny_cplus.Runtime.Channel.Queue.{view, enqueue, dequeue, send_refines, receive_refines}
use tiny_cplus.Runtime.Channel.History.{
  History, produce, consume, shut, Reach, start, later, Inv, Reach-Inv, drained,
}

abbrev empty : Channel
empty = record {
  capacity = 2;
  element_size = 1;
  head = 0;
  count = 0;
  closed = false;
  block = λ _. 0;
}

empty-IsValid : IsValid empty
empty-IsValid = omega arith

-- An allocator that grants up to 1000 bytes.
abbrev small : ℕ → Option Block
small n = elim (compare n 1000) [ Ordering.lt ↦ some (λ _. 0) | _ ↦ none ]

small_ptrdiff : (n : ℕ) (b : Block) → small n ≡ some b → n < 2 ^ 63
small_ptrdiff n b e = ground arith

send_refines_example : outcome_map view (send empty (7 ∷ [])) ≡ enqueue (view empty) (7 ∷ [])
send_refines_example = send_refines empty (7 ∷ []) empty-IsValid refl

receive_refines_example :
    outcome_map (λ (r : List ℕ × Channel). (r.0, view r.1)) (receive empty) ≡ dequeue (view empty)
receive_refines_example = receive_refines empty empty-IsValid

-- One element sent and received, and then the channel closed.
abbrev after_send : Channel
after_send = record empty { block = copy_bytes (λ _. 0) 0 (7 ∷ []); count = 1 }

abbrev after_receive : Channel
after_receive = record after_send { head = 1; count = 0 }

abbrev ended : History
ended = record { channel = close after_receive; produced = (7 ∷ []) ∷ []; consumed = (7 ∷ []) ∷ [] }

ended-Reach : Reach empty ended
unfolding send receive tail copy_bytes read add_size sub_size mul_size
ended-Reach =
    later
      (later (later start (produce (7 ∷ []) {c = after_send} refl refl))
        (consume {value = 7 ∷ []} {c = after_receive} refl))
      shut

Reach-Inv_example : Inv ended
Reach-Inv_example = Reach-Inv empty-IsValid refl ended-Reach

drained_example : (ended.channel.closed ≡ true) × (ended.consumed ≡ ended.produced)
unfolding receive close
drained_example = drained empty-IsValid refl ended-Reach refl
