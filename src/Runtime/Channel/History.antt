-- ===== src/Runtime/Channel/History.antt =====
-- Any number of threads that send, receive and close, in any interleaving of their critical
-- sections.
use tiny_cplus.Prelude.{
  ℕ, ◌<◌, ◌≡◌, sym, ap, ◌∙◌, true, false, Bool-cases, List, [], ◌∷◌, ◌++◌, append-nil, append_assoc,
  inl, inr, arith, length, ◌==◌, ==_iff,
}
use tiny_cplus.Runtime.Channel.{Channel, closed, ok, send, receive, close}
use tiny_cplus.Runtime.Channel.Valid.{IsValid, slot, queue}
use tiny_cplus.Runtime.Channel.Ring.{
  sent, received, queue-sent, queue-received, send-sent, receive-received, sent-IsValid,
  received-IsValid,
}
use tiny_cplus.Runtime.Channel.Queue.{
  queue-empty, send-closed, send-waits, receive-waits, receive-closed,
}

-- The channel, all elements that sends have taken and all that receives have handed out, in the
-- order of the critical sections.
pub record History : Type 0 where
  pub channel : Channel
  pub produced : List (List ℕ)
  pub consumed : List (List ℕ)

pub data Step (h : History) : History → Type 0 where
  produce :
      (value : List ℕ) {c : Channel}
      → length value ≡ h.channel.element_size
      → send h.channel value ≡ ok c
      → Step h (record h { channel = c; produced = h.produced ++ value ∷ [] })
  consume :
      {value : List ℕ} {c : Channel}
      → receive h.channel ≡ ok (value, c)
      → Step h (record h { channel = c; consumed = h.consumed ++ value ∷ [] })
  shut : Step h (record h { channel = close h.channel })

abbrev pub started : Channel → History
started c = record { channel = c; produced = []; consumed = [] }

pub data Reach (c : Channel) : History → Type 0 where
  start : Reach c (started c)
  later : {h k : History} → Reach c h → Step h k → Reach c k

-- What a send that returns 0 has done, and a receive that returns 0.
send-ok :
    (c : Channel) (value : List ℕ) {d : Channel}
    → IsValid c
    → send c value ≡ ok d
    → (c.closed ≡ false) × (c.count < c.capacity) × (d ≡ sent c value)
send-ok c value v e = elim (Bool-cases c.closed) [
  | inl is_shut ↦ cc (send-closed c value is_shut)
  | inr open_ ↦ elim (Bool-cases (c.count == c.capacity)) [
    | inl full ↦ cc (send-waits c value open_ ((==_iff c.count c.capacity).0 full))
    | inr room ↦
        let less : c.count < c.capacity = ground (arith, v.count_in) in
        (open_, less, cc (send-sent c value v less open_))
  ]
]

receive-ok :
    (c : Channel) {value : List ℕ} {d : Channel}
    → IsValid c
    → receive c ≡ ok (value, d)
    → (0 < c.count) × (value ≡ slot c.block c.element_size c.head) × (d ≡ received c)
receive-ok c v e = elim (Bool-cases (c.count == 0)) [
  | inl none_ ↦ elim (Bool-cases c.closed) [
    | inl is_shut ↦ cc (receive-closed c is_shut ((==_iff c.count 0).0 none_))
    | inr open_ ↦ cc (receive-waits c open_ ((==_iff c.count 0).0 none_))
  ]
  | inr some_ ↦
      let more : 0 < c.count = ground arith in
      (more, cc (receive-received c v more), cc (receive-received c v more))
]

receive-ended : (c : Channel) → IsValid c → receive c ≡ closed → (c.closed ≡ true) × (c.count ≡ 0)
receive-ended c v e = elim (Bool-cases (c.count == 0)) [
  | inl none_ ↦ elim (Bool-cases c.closed) [
    | inl is_shut ↦ (is_shut, (==_iff c.count 0).0 none_)
    | inr open_ ↦ cc (receive-waits c open_ ((==_iff c.count 0).0 none_))
  ]
  | inr some_ ↦ cc (receive-received c v (ground arith))
]

pub record Inv (h : History) : Type 0 where
  pub valid : IsValid h.channel
  pub all : h.consumed ++ queue h.channel ≡ h.produced

close-Inv : (h : History) → Inv h → Inv (record h { channel = close h.channel })
unfolding close
close-Inv h i = record {
  valid = record {
    some_room = i.valid.some_room;
    some_size = i.valid.some_size;
    head_in = i.valid.head_in;
    count_in = i.valid.count_in;
    granted = i.valid.granted;
  };
  all = i.all;
}

Step-Inv : {h k : History} → Step h k → Inv h → Inv k
Step-Inv {h} (produce value fits e) i =
    let (open_, less, is) = send-ok h.channel value i.valid e in
    rw is (record {
      valid = sent-IsValid h.channel value i.valid less;
      all =
          ap (λ l. h.consumed ++ l) (queue-sent h.channel value i.valid less fits)
          ∙ sym (append_assoc h.consumed (queue h.channel) (value ∷ []))
          ∙ ap (λ l. l ++ value ∷ []) i.all;
    })
Step-Inv {h} (consume {value} e) i =
    let (more, head, is) = receive-ok h.channel i.valid e in
    rw is (record {
      valid = received-IsValid h.channel i.valid more;
      all =
          append_assoc h.consumed (value ∷ []) (queue (received h.channel))
          ∙ ap (λ x. h.consumed ++ x ∷ queue (received h.channel)) head
          ∙ ap (λ l. h.consumed ++ l) (sym (queue-received h.channel i.valid more))
          ∙ i.all;
    })
Step-Inv {h} shut i = close-Inv h i

-- However the threads interleave, the elements received are the first of those sent, in the order
-- of sending, and those still to come stand in the channel, which is valid.
pub Reach-Inv : {c : Channel} {h : History} → IsValid c → c.count ≡ 0 → Reach c h → Inv h
Reach-Inv {c} v empty start = record { valid = v; all = queue-empty c empty }
Reach-Inv v empty (later r s) = Step-Inv s (Reach-Inv v empty r)

-- A receive that reports the end of a closed channel comes after every element that was sent has
-- been received.
pub drained :
    {c : Channel} {h : History}
    → IsValid c
    → c.count ≡ 0
    → Reach c h
    → receive h.channel ≡ closed
    → (h.channel.closed ≡ true) × (h.consumed ≡ h.produced)
drained {h} v empty r e =
    let (shut_, none_) = receive-ended h.channel i.valid e in
    (
      shut_,
      sym (append-nil h.consumed)
          ∙ ap (λ l. h.consumed ++ l) (sym (queue-empty h.channel none_))
          ∙ i.all,
    )
  where
    i : Inv h
    i = Reach-Inv v empty r
