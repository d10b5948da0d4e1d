-- ===== src/Runtime/Channel/Ring.antt =====
-- The ring: what a send and a receive that go through make of a valid channel.
use mathlib.Core.Path.{ap₂, subst}
use tiny_cplus.Prelude.{
  ℕ, suc, ◌+◌, ◌-◌, ◌*◌, ◌%◌, ◌<◌, ◌≤◌, ◌≡◌, sym, ap, ◌∙◌, ◌⊎◌, false, List, [], ◌∷◌, ◌++◌, arith,
  length,
}
use tiny_cplus.Prelude.Tabulate.{tabulate, tabulate_congr, tabulate-last}
use native.Mathlib.Nat.{mod-lt, mod-eq_of_lt}
use tiny_cplus.Machine.{add_size, sub_size}
use tiny_cplus.Machine.Block.{copy_bytes, read, read-copy_bytes, read-copy_bytes_apart}
use tiny_cplus.Runtime.Channel.{Channel, ok, send, receive}
use tiny_cplus.Runtime.Channel.Valid.{
  IsValid, slot, queue, apart, ring_ne, ring_next, tail-eq, offset-eq, factor-le,
}

-- The state after a send that is not refused.
unfoldable pub sent : Channel → List ℕ → Channel
sent c value = record c {
  block = copy_bytes c.block ((c.head + c.count) % c.capacity * c.element_size) value;
  count = c.count + 1;
}

unfoldable pub received : Channel → Channel
received c = record c { head = (c.head + 1) % c.capacity; count = c.count - 1 }

pub queue-sent :
    (c : Channel) (value : List ℕ)
    → IsValid c
    → c.count < c.capacity
    → length value ≡ c.element_size
    → queue (sent c value) ≡ queue c ++ value ∷ []
unfolding sent
queue-sent c value v less fits =
    ap (λ n. tabulate n after) {x = c.count + 1} {y = suc c.count} (omega arith)
    ∙ tabulate-last c.count after
    ∙ ap₂ (λ l x. l ++ x ∷ [])
        (tabulate_congr c.count after before (λ k lt.
          read-copy_bytes_apart c.block (last * size) value ((c.head + k) % c.capacity * size) size
            (subst
              (λ n.
                ((c.head + k) % c.capacity * size + size ≤ last * size)
                ⊎ (last * size + n ≤ (c.head + k) % c.capacity * size))
              (sym fits)
              (apart last ((c.head + k) % c.capacity) size
                (ring_ne c.head k c.count c.capacity lt less v.head_in)))))
        (subst (λ n. read (copy_bytes c.block (last * size) value) (last * size) n ≡ value) fits
          (read-copy_bytes c.block (last * size) value))
  where
    size : ℕ
    size = c.element_size

    last : ℕ
    last = (c.head + c.count) % c.capacity

    before : ℕ → List ℕ
    before k = slot c.block size ((c.head + k) % c.capacity)

    after : ℕ → List ℕ
    after k = slot (copy_bytes c.block (last * size) value) size ((c.head + k) % c.capacity)

pub queue-received :
    (c : Channel)
    → IsValid c
    → 0 < c.count
    → queue c ≡ slot c.block c.element_size c.head ∷ queue (received c)
unfolding received tabulate
queue-received c v more =
    ap (λ n. tabulate n item) {x = c.count} {y = suc (c.count - 1)} (omega arith)
    ∙ ap₂ ◌∷◌
        (ap (slot c.block c.element_size) (
          ap (λ m. m % c.capacity) {x = c.head + 0} {y = c.head} (omega arith)
          ∙ mod-eq_of_lt v.head_in))
        (tabulate_congr (c.count - 1) (λ k. item (suc k)) _
          (λ k lt. ap (slot c.block c.element_size) (sym (ring_next c.head k c.capacity))))
  where
    item : ℕ → List ℕ
    item k = slot c.block c.element_size ((c.head + k) % c.capacity)

pub send-sent :
    (c : Channel) (value : List ℕ)
    → IsValid c
    → c.count < c.capacity
    → c.closed ≡ false
    → send c value ≡ ok (sent c value)
unfolding send sent add_size
send-sent c value v less open_ = ground (
  arith,
  tail-eq c v,
  offset-eq c ((c.head + c.count) % c.capacity) v (mod-lt (c.head + c.count) v.some_room),
  factor-le c.capacity c.element_size v.some_size,
  v.granted,
)

pub receive-received :
    (c : Channel)
    → IsValid c
    → 0 < c.count
    → receive c ≡ ok (slot c.block c.element_size c.head, received c)
unfolding receive received add_size sub_size
receive-received c v more = ground (
  arith,
  offset-eq c c.head v v.head_in,
  factor-le c.capacity c.element_size v.some_size,
  v.granted,
)

-- The states after a send and a receive are valid again.
pub sent-IsValid :
    (c : Channel) (value : List ℕ) → IsValid c → c.count < c.capacity → IsValid (sent c value)
unfolding sent
sent-IsValid c value v less = omega arith

pub received-IsValid : (c : Channel) → IsValid c → 0 < c.count → IsValid (received c)
unfolding received
received-IsValid c v more = record {
  some_room = v.some_room;
  some_size = v.some_size;
  head_in = mod-lt (c.head + 1) v.some_room;
  count_in = omega arith;
  granted = v.granted;
}
