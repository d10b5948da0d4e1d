-- ===== src/Runtime/Channel/Valid.antt =====
-- The representation invariant of the channel, and the elements that it holds.
use native.Mathlib.Nat.{mod-add-mod, mod-eq_of_lt, mod-eq-sub-mod, mod-lt, div-add-mod}
use native.Mathlib.Decide.{dec_lt}
use tiny_cplus.Prelude.{
  ℕ, zero, suc, ◌+◌, ◌-◌, ◌*◌, ◌%◌, ◌^◌, ◌<◌, ◌≤◌, ◌≡◌, ◌≢◌, refl, ap, ◌∙◌, ◌⊎◌, inl, inr, Bool,
  true, false, List, [], Option, none, some, Option-cases, Bool-cases, arith, ltb, ◌==◌, ◌||◌, ◌/◌,
}
use tiny_cplus.Prelude.Tabulate.{tabulate}
use tiny_cplus.Machine.{add_size, mul_size, word}
use tiny_cplus.Machine.Block.{Block, read}
use tiny_cplus.Runtime.Channel.{Channel, create, fresh, tail}

pub record IsValid (c : Channel) : Type 0 where
  pub some_room : 0 < c.capacity
  pub some_size : 0 < c.element_size
  pub head_in : c.head < c.capacity
  pub count_in : c.count ≤ c.capacity
  -- malloc grants no more than PTRDIFF_MAX bytes
  pub granted : c.capacity * c.element_size < 2 ^ 63

-- The element in the slot `j`.
abbrev pub slot : Block → ℕ → ℕ → List ℕ
slot b size j = read b (j * size) size

-- The elements that wait to be received, the oldest first.
abbrev pub queue : Channel → List (List ℕ)
queue c = tabulate c.count (λ k. slot c.block c.element_size ((c.head + k) % c.capacity))

pub factor-le : (a b : ℕ) → 0 < b → a ≤ a * b
factor-le a b h = grind arith

below_apart : (i j size : ℕ) → i < j → i * size + size ≤ j * size
below_apart i j size h = grind arith

-- Slots that differ do not overlap.
pub apart : (i j size : ℕ) → i ≢ j → (j * size + size ≤ i * size) ⊎ (i * size + size ≤ j * size)
apart i j size h = elim (dec_lt i j) [
  | yes lt ↦ inr (below_apart i j size lt)
  | no ge ↦ inl (below_apart j i size (omega arith))
]

-- A slot of the ring ends inside the block.
pub slot_within : (i cap size : ℕ) → i < cap → i * size + size ≤ cap * size
slot_within i cap size h = below_apart i cap size h

ring_cases :
    (m cap : ℕ) → m < 2 * cap → ((m < cap) × (m % cap ≡ m)) ⊎ ((cap ≤ m) × (m % cap ≡ m - cap))
ring_cases m cap h = elim (dec_lt m cap) [
  | yes lt ↦ inl (lt, mod-eq_of_lt lt)
  | no ge ↦ inr (omega arith, mod-eq-sub-mod (omega arith) ∙ mod-eq_of_lt (omega arith))
]

-- Fewer than `capacity` steps apart on the ring means different slots.
pub ring_ne : (h j k cap : ℕ) → j < k → k < cap → h < cap → (h + k) % cap ≢ (h + j) % cap
ring_ne h j k cap lt le hh e =
    ground (arith, ring_cases (h + k) cap (omega arith), ring_cases (h + j) cap (omega arith))

-- Going round from the next slot.
pub ring_next : (h k cap : ℕ) → ((h + 1) % cap + k) % cap ≡ (h + suc k) % cap
ring_next h k cap = mod-add-mod (h + 1) cap k ∙ ap (λ m. m % cap) (omega arith)

-- No size_t operation of the channel wraps.
pub tail-eq : (c : Channel) → IsValid c → tail c ≡ (c.head + c.count) % c.capacity
unfolding tail add_size
tail-eq c v =
    let e : (c.head + c.count) % word ≡ c.head + c.count =
      omega (
        arith,
        factor-le c.capacity c.element_size v.some_size,
        v.head_in,
        v.count_in,
        v.granted,
      ) in
    rw e

pub offset-eq :
    (c : Channel) (i : ℕ)
    → IsValid c
    → i < c.capacity
    → mul_size i c.element_size ≡ i * c.element_size
unfolding mul_size
offset-eq c i v h = omega (arith, slot_within i c.capacity c.element_size h, v.granted)

times_quotient : (m size cap : ℕ) → cap ≤ m / size → cap * size ≤ m / size * size
times_quotient m size cap h = grind arith

product_small : (m size cap : ℕ) → cap ≤ m / size → cap * size ≤ m
product_small m size cap h = omega (arith, div-add-mod m size, times_quotient m size cap h)

product_large : (m size cap : ℕ) → 0 < size → m / size < cap → m < cap * size
product_large m size cap h lt =
    omega (arith, div-add-mod m size, mod-lt m h, below_apart (m / size) cap size lt)

-- What `tc_channel_create` returns: NULL where an argument is 0, the product passes SIZE_MAX or an
-- allocation fails, and otherwise a valid, open and empty channel.
abbrev pub Creates : Bool → (ℕ → Option Block) → ℕ → ℕ → Option Channel → Type 0
Creates calloc malloc capacity size none =
    (capacity ≡ 0)
    ⊎ (size ≡ 0)
    ⊎ (word ≤ capacity * size)
    ⊎ (calloc ≡ false)
    ⊎ (malloc (capacity * size) ≡ none)
Creates calloc malloc capacity size (some c) =
    IsValid c
    × (queue c ≡ [])
    × (c.capacity ≡ capacity)
    × (c.element_size ≡ size)
    × (c.closed ≡ false)
    × (capacity * size < word)

IsValid-fresh :
    (capacity size : ℕ) (block : Block)
    → 0 < capacity
    → 0 < size
    → capacity * size < 2 ^ 63
    → IsValid (fresh capacity size block)
IsValid-fresh capacity size block a b c = record {
  some_room = a;
  some_size = b;
  head_in = a;
  count_in = omega arith;
  granted = c;
}

refused_args :
    (capacity size : ℕ)
    → (capacity == 0 || size == 0 || ltb ((word - 1) / size) capacity) ≡ true
    → (capacity ≡ 0) ⊎ (size ≡ 0) ⊎ (word ≤ capacity * size)
refused_args zero size h = inl refl
refused_args (suc capacity) zero h = inr (inl refl)
refused_args (suc capacity) (suc size) h = inr (
    inr (
      omega
        (arith, product_large (word - 1) (suc size) (suc capacity) (omega arith) (ground arith))))

good_args :
    (capacity size : ℕ)
    → (capacity == 0 || size == 0 || ltb ((word - 1) / size) capacity) ≡ false
    → (0 < capacity) × (0 < size) × (capacity * size < word)
good_args zero size h = ground arith
good_args (suc capacity) zero h = ground arith
good_args (suc capacity) (suc size) h = (
  omega arith,
  omega arith,
  omega (arith, product_small (word - 1) (suc size) (suc capacity) (ground arith)),
)

-- If malloc grants no more than PTRDIFF_MAX bytes, `tc_channel_create` returns a channel, valid,
-- open and empty, or it returns NULL, and then an argument is zero, the block would not fit a
-- size_t, or an allocation fails.
pub create-Creates :
    (calloc : Bool) (malloc : ℕ → Option Block) (capacity size : ℕ)
    → ((n : ℕ) (b : Block) → malloc n ≡ some b → n < 2 ^ 63)
    → Creates calloc malloc capacity size (create calloc malloc capacity size)
unfolding create tabulate
create-Creates calloc malloc capacity size ptrdiff =
    elim (Bool-cases (capacity == 0 || size == 0 || ltb ((word - 1) / size) capacity)) [
      | inl bad ↦ rw (bad, create) (widen (refused_args capacity size bad))
      | inr good ↦
          let (a, b, small) = good_args capacity size good in
          let e : mul_size capacity size ≡ capacity * size =
            unfold mul_size in mod-eq_of_lt small in
          elim (Bool-cases calloc) [
            | inr no_struct ↦ rw (good, no_struct, create) (inr (inr (inr (inl refl))))
            | inl struct ↦ elim (Option-cases (malloc (capacity * size))) [
              | inl no_data ↦ rw (good, struct, e, no_data, create) (inr (inr (inr (inr no_data))))
              | inr (block, given) ↦
                  rw (good, struct, e, given, create)
                    (
                      IsValid-fresh capacity size block a b (ptrdiff _ block given),
                      refl,
                      refl,
                      refl,
                      refl,
                      small,
                    )
            ]
          ]
    ]
  where
    widen :
        {B : Type 0}
        → (capacity ≡ 0) ⊎ (size ≡ 0) ⊎ (word ≤ capacity * size)
        → (capacity ≡ 0) ⊎ (size ≡ 0) ⊎ (word ≤ capacity * size) ⊎ B
    widen (inl h) = inl h
    widen (inr (inl h)) = inr (inl h)
    widen (inr (inr h)) = inr (inr (inl h))
