-- ===== src/Runtime/Grpc/Frame.antt =====
-- What the buffers of gRPC hold, and the frame around a message.
use native.Mathlib.Nat.{pow-suc, mul_assoc}
use tiny_cplus.Prelude.{
  ℕ, zero, suc, ◌+◌, ◌-◌, ◌*◌, ◌%◌, ◌^◌, ◌<◌, ◌≤◌, ◌≡◌, refl, Bool, true, false, List, ◌++◌, length,
  length-append, ltb, ◌==◌, if◌then◌else◌, if_cases, ltb→lt, ltb→ge, arith,
}
use tiny_cplus.Machine.{word, add_size, sub_size, mul_size, add_size-eq, sub_size-eq}
use tiny_cplus.Runtime.Grpc.{limit}
use tiny_cplus.Runtime.Grpc.Message.{Buffer, empty_buffer, doubled, doublings, buffer_add}

-- The bytes stand within the capacity and within the limit.
pub record IsSound (b : Buffer) : Type 0 where
  pub within : length b.bytes ≤ b.capacity
  pub limited : length b.bytes ≤ limit + 5
  pub granted : b.capacity ≤ 2 ^ 24

empty_buffer-IsSound : IsSound empty_buffer
empty_buffer-IsSound = record { within = omega arith; limited = omega arith; granted = omega arith }

doubled-bounds :
    (fuel c n : ℕ)
    → c ≤ 2 ^ 24
    → n ≤ 2 ^ 23
    → n ≤ c * 2 ^ fuel
    → (n ≤ doubled fuel c n) × (doubled fuel c n ≤ 2 ^ 24)
unfolding doubled mul_size
doubled-bounds zero c n h k e = (omega arith, h)
doubled-bounds (suc fuel) c n h k e =
    if_cases (λ z. (n ≤ z) × (z ≤ 2 ^ 24)) (ltb c n)
      (λ l.
        let less = ltb→lt c n l in
        let twice : c * 2 % word ≡ c * 2 = omega arith in
        let enough : n ≤ c * 2 * 2 ^ fuel =
          grind (arith, pow-suc 2 fuel, mul_assoc c 2 (2 ^ fuel)) in
        rw twice (doubled-bounds fuel (c * 2) n (omega arith) k enough))
      (λ l. (ltb→ge c n l, h))

-- What an addition to a buffer comes to.
pub data Adds (realloc : ℕ → Bool) (b : Buffer) (text : List ℕ) : Bool × Buffer → Type 0 where
  too_long :
      {r : Bool × Buffer}
      → limit + 5 < length b.bytes + length text
      → r ≡ (true, b)
      → Adds realloc b text r
  no_memory :
      {r : Bool × Buffer} (n : ℕ)
      → b.capacity < length b.bytes + length text
      → realloc n ≡ false
      → r ≡ (true, b)
      → Adds realloc b text r
  appended :
      {r : Bool × Buffer}
      → length b.bytes + length text ≤ limit + 5
      → r.0 ≡ false
      → r.1.bytes ≡ b.bytes ++ text
      → IsSound r.1
      → Adds realloc b text r

first_capacity : ℕ → ℕ
first_capacity c = if c == 0 then 256 else c

first_capacity-bounds :
    (c n : ℕ)
    → c ≤ 2 ^ 24
    → n ≤ limit + 5
    → (first_capacity c ≤ 2 ^ 24) × (n ≤ first_capacity c * 2 ^ doublings)
unfolding first_capacity
first_capacity-bounds c n h k = ground arith

IsSound-longer :
    (b : Buffer) (text : List ℕ) (c : ℕ)
    → length b.bytes + length text ≤ limit + 5
    → length b.bytes + length text ≤ c
    → c ≤ 2 ^ 24
    → IsSound (record { bytes = b.bytes ++ text; capacity = c })
IsSound-longer b text c h k l = record {
  within = omega (arith, length-append b.bytes text);
  limited = omega (arith, length-append b.bytes text);
  granted = l;
}

-- In a sound buffer `tc_grpc_buffer_add` refuses a text that goes beyond the limit and one for which
-- it finds no memory, both times leaving the buffer, and else appends the text and keeps the buffer
-- sound.
pub buffer_add-Adds :
    (realloc : ℕ → Bool) (b : Buffer) (text : List ℕ)
    → IsSound b
    → length text < 2 ^ 63
    → Adds realloc b text (buffer_add realloc b text)
unfolding buffer_add first_capacity
buffer_add-Adds realloc b text s h =
    let need : ℕ = add_size (length b.bytes) (length text) in
    let same_need : need ≡ length b.bytes + length text =
      add_size-eq (length b.bytes) (length text) (omega (arith, s.limited)) in
    let room : sub_size (limit + 5) (length b.bytes) ≡ limit + 5 - length b.bytes =
      sub_size-eq (limit + 5) (length b.bytes) s.limited (omega arith) in
    if_cases (Adds realloc b text) (ltb (sub_size (limit + 5) (length b.bytes)) (length text))
      (λ e. too_long (omega (arith, ltb→lt _ _ e, s.limited)) refl)
      (λ e.
        let fits : length b.bytes + length text ≤ limit + 5 =
          omega (arith, ltb→ge _ _ e, s.limited) in
        let (first, enough) = first_capacity-bounds b.capacity need s.granted (omega arith) in
        let (more, bound) =
          doubled-bounds doublings (first_capacity b.capacity) need first (omega arith) enough in
        if_cases (Adds realloc b text) (ltb b.capacity need)
          (λ f.
            if_cases (Adds realloc b text)
              (realloc (doubled doublings (first_capacity b.capacity) need))
              (λ g. appended fits refl refl (IsSound-longer b text _ fits (omega arith) bound))
              (λ g. no_memory _ (omega (arith, ltb→lt _ _ f)) g refl))
          (λ f.
            appended fits refl refl
              (IsSound-longer b text b.capacity fits (omega (arith, ltb→ge _ _ f)) s.granted)))
