-- ===== src/Runtime/Channel/Queue.antt =====
-- A valid channel is a bounded queue: what is sent is received, once, in the order of sending.
use tiny_cplus.Prelude.{
  ℕ, ◌+◌, ◌%◌, ◌≡◌, sym, ap, ◌∙◌, inl, inr, Bool, true, false, Bool-cases, List, [], ◌∷◌, ◌++◌,
  arith, length, ◌==◌, ==_iff, if◌then◌else◌, not,
}
use tiny_cplus.Prelude.Tabulate.{tabulate, length-tabulate}
use tiny_cplus.Runtime.Channel.{Channel, Outcome, waits, closed, ok, outcome_map, send, receive}
use tiny_cplus.Runtime.Channel.Valid.{IsValid, slot, queue}
use tiny_cplus.Runtime.Channel.Ring.{
  sent, received, queue-sent, queue-received, send-sent, receive-received,
}

-- The queue that a channel stands for, and its operations.
pub record Bounded : Type 0 where
  pub room : ℕ
  pub open_ : Bool
  pub items : List (List ℕ)

abbrev pub view : Channel → Bounded
view c = record { room = c.capacity; open_ = not c.closed; items = queue c }

unfoldable pub enqueue : Bounded → List ℕ → Outcome Bounded
enqueue q value =
    if not q.open_
    then closed
    else if length q.items == q.room
    then waits
    else ok (record q { items = q.items ++ value ∷ [] })

dequeue_from : Bounded → List (List ℕ) → Outcome (List ℕ × Bounded)
dequeue_from q [] = if q.open_ then waits else closed
dequeue_from q (value ∷ rest) = ok (value, record q { items = rest })

unfoldable pub dequeue : Bounded → Outcome (List ℕ × Bounded)
unfolding dequeue_from
dequeue q = dequeue_from q q.items

pub send-closed : (c : Channel) (value : List ℕ) → c.closed ≡ true → send c value ≡ closed
unfolding send
send-closed c value e = ground arith

pub send-waits :
    (c : Channel) (value : List ℕ) → c.closed ≡ false → c.count ≡ c.capacity → send c value ≡ waits
unfolding send
send-waits c value e full = ground arith

enqueue-closed : (c : Channel) (value : List ℕ) → c.closed ≡ true → enqueue (view c) value ≡ closed
unfolding enqueue
enqueue-closed c value e = ground arith

enqueue-open :
    (c : Channel) (value : List ℕ)
    → c.closed ≡ false
    → enqueue (view c) value ≡ (
        if c.count == c.capacity
        then waits
        else ok (record (view c) { items = queue c ++ value ∷ [] }))
unfolding enqueue
enqueue-open c value e =
    ground (
      arith,
      length-tabulate c.count (λ k. slot c.block c.element_size ((c.head + k) % c.capacity)),
    )

-- On a valid channel `tc_channel_send` waits, refuses or appends exactly as the bounded queue does.
pub send_refines :
    (c : Channel) (value : List ℕ)
    → IsValid c
    → length value ≡ c.element_size
    → outcome_map view (send c value) ≡ enqueue (view c) value
send_refines c value v fits = elim (Bool-cases c.closed) [
  | inl shut ↦ ap (outcome_map view) (send-closed c value shut) ∙ sym (enqueue-closed c value shut)
  | inr open_ ↦ elim (Bool-cases (c.count == c.capacity)) [
    | inl full ↦
        ap (outcome_map view) (send-waits c value open_ ((==_iff c.count c.capacity).0 full))
        ∙ sym (
            enqueue-open c value open_
            ∙ ap (λ b. if b then waits else ok (record (view c) { items = queue c ++ value ∷ [] }))
                full)
    | inr room ↦
        ap (outcome_map view) (send-sent c value v (ground (arith, v.count_in)) open_)
        ∙ ap ok (view-sent c value (queue-sent c value v (ground (arith, v.count_in)) fits))
        ∙ sym (
            enqueue-open c value open_
            ∙ ap (λ b. if b then waits else ok (record (view c) { items = queue c ++ value ∷ [] }))
                room)
  ]
]
  where
    view-sent :
        (c : Channel) (value : List ℕ)
        → queue (sent c value) ≡ queue c ++ value ∷ []
        → view (sent c value) ≡ record (view c) { items = queue c ++ value ∷ [] }
    view-sent c value e = unfold sent in ap (λ l. record (view c) { items = l }) e

pub receive-waits : (c : Channel) → c.closed ≡ false → c.count ≡ 0 → receive c ≡ waits
unfolding receive
receive-waits c e none_ = ground arith

pub receive-closed : (c : Channel) → c.closed ≡ true → c.count ≡ 0 → receive c ≡ closed
unfolding receive
receive-closed c e none_ = ground arith

pub queue-empty : (c : Channel) → c.count ≡ 0 → queue c ≡ []
unfolding tabulate
queue-empty c e =
    ap (λ n. tabulate n (λ k. slot c.block c.element_size ((c.head + k) % c.capacity))) e

-- On a valid channel `tc_channel_receive` waits, ends or hands out the oldest element exactly as
-- the bounded queue does.
pub receive_refines :
    (c : Channel)
    → IsValid c
    → outcome_map (λ (r : List ℕ × Channel). (r.0, view r.1)) (receive c) ≡ dequeue (view c)
unfolding dequeue received
receive_refines c v = elim (Bool-cases (c.count == 0)) [
  | inl none_ ↦
      let empty : c.count ≡ 0 = (==_iff c.count 0).0 none_ in
      elim (Bool-cases c.closed) [
        | inl shut ↦
            ap out (receive-closed c shut empty)
            ∙ sym (
                ap (dequeue_from (view c)) (queue-empty c empty)
                ∙ ap (λ b. if not b then waits else closed) shut)
        | inr open_ ↦
            ap out (receive-waits c open_ empty)
            ∙ sym (
                ap (dequeue_from (view c)) (queue-empty c empty)
                ∙ ap (λ b. if not b then waits else closed) open_)
      ]
  | inr some_ ↦
      ap out (receive-received c v (ground arith))
      ∙ sym (ap (dequeue_from (view c)) (queue-received c v (ground arith)))
]
  where
    out : Outcome (List ℕ × Channel) → Outcome (List ℕ × Bounded)
    out = outcome_map (λ (r : List ℕ × Channel). (r.0, view r.1))
