-- ===== src/Runtime/Protobuf/Varint.antt =====
-- Varints: what is written is read back.
use Prim.Native.Nat.{bit_and, bit_or}
use native.Mathlib.Nat.{div-add-mod, pow-suc}
use mathlib.Core.Path.{ap₂, subst}
use native.Mathlib.Decide.{dec_lt}
use native.Mathlib.Numerals.{towards_suc}
use tiny_cplus.Prelude.{
  ℕ, zero, suc, ◌+◌, ◌*◌, ◌/◌, ◌%◌, ◌^◌, ◌<◌, ◌≤◌, ◌≡◌, refl, ap, ◌∙◌, inl, inr, true, false,
  Bool-cases, List, [], ◌∷◌, arith, length, get_or, ltb, ltb→ge,
}
use tiny_cplus.Machine.{word, add_size}
use tiny_cplus.Machine.Bits.{bit_or-disjoint, bit_and-mask, bit_and-above}
use tiny_cplus.Runtime.Protobuf.{limit}
use tiny_cplus.Runtime.Protobuf.Writer.{varint_groups, varint_bytes}
use tiny_cplus.Runtime.Protobuf.Reader.{Reader, varint_from, read_varint}

-- A byte with its top bit set, over a group of seven bits.
continued : (v : ℕ) → bit_or (bit_and v 127) 128 % 256 ≡ v % 128 + 128
continued v = ground (arith, bit_and-mask 7 v, bit_or-disjoint 7 (v % 128) 1)

group_of : (b : ℕ) → bit_and b 127 ≡ b % 128
group_of b = bit_and-mask 7 b

top_bit_clear : (b : ℕ) → b < 128 → bit_and b 128 ≡ 0
top_bit_clear b h = ground (arith, bit_and-above 7 b 0 1)

top_bit_set : (b : ℕ) → b < 128 → bit_and (b + 128) 128 ≡ 128
top_bit_set b h = ground (arith, bit_and-above 7 b 1 1)

-- The encoding without bit operations.
pub groups : ℕ → ℕ → List ℕ
groups zero v = v ∷ []
groups (suc left) v = elim (ltb 127 v) [
  | true ↦ (v % 128 + 128) ∷ groups left (v / 128)
  | false ↦ v ∷ []
]

varint_groups-groups : (left v : ℕ) → v < 128 ^ suc left → varint_groups left v ≡ groups left v
unfolding varint_groups groups
varint_groups-groups zero v h = ap (λ b. b ∷ []) (omega arith)
varint_groups-groups (suc left) v h = elim (Bool-cases (ltb 127 v)) [
  | inl more ↦
      rw (more, varint_groups, groups)
        (ap₂ ◌∷◌ (continued v)
          (varint_groups-groups left (v / 128) (omega (arith, pow-suc 128 (suc left)))))
  | inr last ↦
      rw (last, varint_groups, groups) (ap (λ b. b ∷ []) (omega (arith, ltb→ge 127 v last)))
]

-- The bytes stand in the input from that position on.
pub record HoldsAt (input : List ℕ) (at : ℕ) (bytes : List ℕ) : Type 0 where
  pub small : length input ≤ limit
  pub within : at + length bytes ≤ length input
  pub same : (j : ℕ) → j < length bytes → get_or input (at + j) 0 ≡ get_or bytes j 0

pub HoldsAt-tail :
    (input : List ℕ) (at b : ℕ) (bytes : List ℕ)
    → HoldsAt input at (b ∷ bytes)
    → HoldsAt input (at + 1) bytes
HoldsAt-tail input at b bytes h = record {
  small = h.small;
  within = omega (arith, h.within);
  same = λ j lt.
      ap (λ k. get_or input k 0) {x = at + 1 + j} {y = at + suc j} (omega arith)
      ∙ h.same (suc j) (omega arith);
}

pub HoldsAt-head :
    (input : List ℕ) (at b : ℕ) (bytes : List ℕ)
    → HoldsAt input at (b ∷ bytes)
    → get_or input at 0 ≡ b
HoldsAt-head input at b bytes h =
    ap (λ k. get_or input k 0) {x = at} {y = at + 0} (omega arith) ∙ h.same 0 (omega arith)

abbrev pub moved : Reader → ℕ → Reader
moved r n = record r { position = r.position + n }

-- A group joins the value that the groups below it make up.
joined :
    (i value b : ℕ)
    → value < 2 ^ (7 * i)
    → value + b % 128 * 2 ^ (7 * i) < word
    → bit_or value (bit_and b 127 * 2 ^ (7 * i) % word) ≡ value + b % 128 * 2 ^ (7 * i)
joined i value b h fits = ground (arith, group_of b, bit_or-disjoint (7 * i) value (b % 128))

last_round :
    (left i value b : ℕ) (r : Reader)
    → HoldsAt r.input r.position (b ∷ [])
    → b < 128
    → value < 2 ^ (7 * i)
    → value + b * 2 ^ (7 * i) < word
    → (i ≡ 9 → b ≤ 1)
    → varint_from (suc left) i value r ≡ (value + b * 2 ^ (7 * i), moved r 1)
unfolding varint_from add_size
last_round left i value b r h small low fits top = ground (
  arith,
  HoldsAt-head r.input r.position b [] h,
  h.within,
  h.small,
  top_bit_clear b small,
  joined i value b,
)

inner_round :
    (left i value b : ℕ) (bytes : List ℕ) (r : Reader)
    → HoldsAt r.input r.position ((b + 128) ∷ bytes)
    → b < 128
    → i < 9
    → value < 2 ^ (7 * i)
    → value + b * 2 ^ (7 * i) < word
    → varint_from (suc left) i value r
      ≡ varint_from left (i + 1) (value + b * 2 ^ (7 * i)) (moved r 1)
unfolding varint_from add_size
inner_round left i value b bytes r h small early low fits = ground (
  arith,
  HoldsAt-head r.input r.position (b + 128) bytes h,
  h.within,
  h.small,
  top_bit_set b small,
  joined i value (b + 128),
)

shift_seven : (i : ℕ) → 2 ^ (7 * (i + 1)) ≡ 128 * 2 ^ (7 * i)
shift_seven i =
    ap (λ k. 2 ^ k) {x = 7 * (i + 1)} {y = 7 * i + 7} (omega arith) ∙ simp towards_suc (omega arith)

-- The lowest group of what is left and the rest of it, both in place.
regrouped : (w i : ℕ) → w * 2 ^ (7 * i) ≡ w % 128 * 2 ^ (7 * i) + w / 128 * 2 ^ (7 * (i + 1))
regrouped w i = omega (
  arith,
  ap (λ (t : ℕ). t * 2 ^ (7 * i)) (div-add-mod w 128),
  ap (λ (t : ℕ). w / 128 * t) (shift_seven i),
)

pub groups_last : (left w : ℕ) → w ≤ 127 → groups left w ≡ w ∷ []
unfolding groups
groups_last zero w h = refl
groups_last (suc left) w h = ground arith

groups_more : (left w : ℕ) → 127 < w → groups (suc left) w ≡ (w % 128 + 128) ∷ groups left (w / 128)
unfolding groups
groups_more left w h = ground arith

group_fits : (value w x : ℕ) → value < x → value + w % 128 * x < 128 * x
group_fits value w x h = grind arith

varint_from-groups :
    (left i value w : ℕ) (r : Reader)
    → i + left ≡ 9
    → HoldsAt r.input r.position (groups left w)
    → w < 128 ^ suc left
    → value < 2 ^ (7 * i)
    → value + w * 2 ^ (7 * i) < word
    → varint_from (suc left) i value r ≡ (value + w * 2 ^ (7 * i), moved r (length (groups left w)))
unfolding groups
varint_from-groups zero i value w r e h small low fits =
    last_round zero i value w r h small low fits
      (λ nine. omega (arith, ap (λ (k : ℕ). w * 2 ^ (7 * k)) nine))
varint_from-groups (suc left) i value w r e h small low fits = elim (dec_lt 127 w) [
  | no last ↦
      let one : groups (suc left) w ≡ w ∷ [] = groups_last (suc left) w (omega arith) in
      rw one (
        last_round (suc left) i value w r (subst (HoldsAt r.input r.position) one h) (omega arith)
          low fits (λ nine. absurd (omega arith)))
  | yes more ↦
      let all = groups_more left w more in
      let h' = subst (HoldsAt r.input r.position) all h in
      let sum = regrouped w i in
      rw all (
        inner_round (suc left) i value (w % 128) (groups left (w / 128)) r h' (omega arith)
          (omega arith) low (omega (arith, sum))
        ∙ varint_from-groups left (i + 1) (value + w % 128 * 2 ^ (7 * i)) (w / 128) (moved r 1)
            (omega arith)
            (HoldsAt-tail r.input r.position (w % 128 + 128) (groups left (w / 128)) h')
            (omega (arith, pow-suc 128 (suc left)))
            (omega (arith, shift_seven i, group_fits value w (2 ^ (7 * i)) low))
            (omega (arith, sum))
        ∙ ground (arith, sum))
]

pub reads_on : (r : Reader) → r.error ≡ 0 → read_varint r ≡ varint_from 10 0 0 r
unfolding read_varint
reads_on r e = ground arith

-- What `tc_pb_write_varint` writes of a uint64 is read back by `tc_pb_read_varint`, wherever it
-- stands in the input, and the reader is then right behind it.
pub read_varint-varint_bytes :
    (v : ℕ) (r : Reader)
    → v < word
    → r.error ≡ 0
    → HoldsAt r.input r.position (varint_bytes v)
    → read_varint r ≡ (v, moved r (length (varint_bytes v)))
read_varint-varint_bytes v r fits fine h =
    let e : varint_bytes v ≡ groups 9 v = varint_groups-groups 9 v (omega arith) in
    reads_on r fine
    ∙ rw e (
        varint_from-groups 9 0 0 v r refl (subst (HoldsAt r.input r.position) e h) (omega arith)
          (omega arith) (omega arith)
        ∙ ap (λ n. (n, moved r (length (groups 9 v)))) (omega arith))
