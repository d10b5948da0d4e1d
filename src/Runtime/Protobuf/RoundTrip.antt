-- ===== src/Runtime/Protobuf/RoundTrip.antt =====
-- Fixed-width numbers and byte strings: what is written is read back.
use mathlib.Core.Path.{subst}
use native.Mathlib.Nat.{div-add-mod, pow-suc}
use native.Mathlib.Numerals.{towards_suc}
use tiny_cplus.Prelude.{
  ℕ, zero, suc, ◌+◌, ◌*◌, ◌/◌, ◌%◌, ◌^◌, ◌<◌, ◌≡◌, refl, sym, ap, ◌∙◌, ◌⊎◌, inl, inr, List, ◌∷◌,
  ◌++◌, some, arith, length, length-append, get_or, get_or-append_left, get_or-append_right, take,
  drop,
}
use tiny_cplus.Machine.{word, add_size, sub_size}
use tiny_cplus.Machine.Bits.{bit_or-disjoint}
use tiny_cplus.Machine.Block.{read_congr, read_of_list, read-get_or}
use tiny_cplus.Runtime.Protobuf.Writer.{fixed_bytes, varint_bytes}
use tiny_cplus.Runtime.Protobuf.Reader.{Reader, fixed_from, read_fixed, slice, read_bytes}
use tiny_cplus.Runtime.Protobuf.Varint.{
  HoldsAt, HoldsAt-head, HoldsAt-tail, moved, read_varint-varint_bytes,
}

pub length-fixed_bytes : (count v : ℕ) → length (fixed_bytes count v) ≡ count
unfolding fixed_bytes
length-fixed_bytes zero v = refl
length-fixed_bytes (suc count) v = ap suc (length-fixed_bytes count (v / 2 ^ 8))

shift_eight : (i : ℕ) → 2 ^ (8 * (i + 1)) ≡ 256 * 2 ^ (8 * i)
shift_eight i =
    ap (λ k. 2 ^ k) {x = 8 * (i + 1)} {y = 8 * i + 8} (omega arith) ∙ simp towards_suc (omega arith)

byte_and_rest : (w i : ℕ) → w * 2 ^ (8 * i) ≡ w % 256 * 2 ^ (8 * i) + w / 256 * 2 ^ (8 * (i + 1))
byte_and_rest w i = omega (
  arith,
  ap (λ (t : ℕ). t * 2 ^ (8 * i)) (div-add-mod w 256),
  ap (λ (t : ℕ). w / 256 * t) (shift_eight i),
)

byte_fits : (value w x : ℕ) → value < x → value + w % 256 * x < 256 * x
byte_fits value w x h = grind arith

fixed_round :
    (left i value b : ℕ) (bytes : List ℕ) (r : Reader)
    → HoldsAt r.input r.position (b ∷ bytes)
    → value < 2 ^ (8 * i)
    → value + b * 2 ^ (8 * i) < word
    → fixed_from (suc left) i value r
      ≡ fixed_from left (i + 1) (value + b * 2 ^ (8 * i)) (moved r 1)
unfolding fixed_from add_size
fixed_round left i value b bytes r h low fits = ground (
  arith,
  HoldsAt-head r.input r.position b bytes h,
  h.within,
  h.small,
  bit_or-disjoint (8 * i) value b,
)

nothing : (w : ℕ) → w < 256 ^ 0 → w ≡ 0
nothing w h = omega arith

stop :
    (value value' i : ℕ) (r : Reader)
    → value ≡ value'
    → fixed_from 0 i value r ≡ (value', moved r 0)
unfolding fixed_from
stop value value' i r e = ground arith

fixed_from-fixed_bytes :
    (left i value w : ℕ) (r : Reader)
    → HoldsAt r.input r.position (fixed_bytes left w)
    → w < 256 ^ left
    → value < 2 ^ (8 * i)
    → value + w * 2 ^ (8 * i) < word
    → fixed_from left i value r ≡ (value + w * 2 ^ (8 * i), moved r left)
unfolding fixed_bytes
fixed_from-fixed_bytes zero i value w r h small low fits =
    stop value (value + w * 2 ^ (8 * i)) i r
      (omega (arith, ap (λ (t : ℕ). t * 2 ^ (8 * i)) (nothing w small)))
fixed_from-fixed_bytes (suc left) i value w r h small low fits =
    let sum = byte_and_rest w i in
    fixed_round left i value (w % 256) (fixed_bytes left (w / 256)) r h low (omega (arith, sum))
    ∙ fixed_from-fixed_bytes left (i + 1) (value + w % 256 * 2 ^ (8 * i)) (w / 256) (moved r 1)
        (HoldsAt-tail r.input r.position (w % 256) (fixed_bytes left (w / 256)) h)
        (omega (arith, pow-suc 256 left))
        (omega (arith, shift_eight i, byte_fits value w (2 ^ (8 * i)) low)) (omega (arith, sum))
    ∙ ground (arith, sum)

opens :
    (count v : ℕ) (r : Reader)
    → (count ≡ 4) ⊎ (count ≡ 8)
    → r.error ≡ 0
    → HoldsAt r.input r.position (fixed_bytes count v)
    → read_fixed r count ≡ fixed_from count 0 0 r
unfolding read_fixed sub_size
opens count v r width fine h = ground (arith, width, h.within, h.small, length-fixed_bytes count v)

fixed_range : (count v : ℕ) → (count ≡ 4) ⊎ (count ≡ 8) → v < 256 ^ count → v < word
fixed_range count v (inl e) h = let h' = subst (λ k. v < 256 ^ k) e h in omega arith
fixed_range count v (inr e) h = let h' = subst (λ k. v < 256 ^ k) e h in omega arith

-- What `tc_pb_write_fixed` writes of a number of 4 or 8 bytes is read back by `tc_pb_read_fixed`
-- with the same count, wherever it stands in the input.
pub read_fixed-fixed_bytes :
    (count v : ℕ) (r : Reader)
    → (count ≡ 4) ⊎ (count ≡ 8)
    → v < 256 ^ count
    → r.error ≡ 0
    → HoldsAt r.input r.position (fixed_bytes count v)
    → read_fixed r count ≡ (v, moved r count)
read_fixed-fixed_bytes count v r width fits fine h =
    opens count v r width fine h
    ∙ fixed_from-fixed_bytes count 0 0 v r h fits (omega arith)
        (omega (arith, fixed_range count v width fits))
    ∙ ap (λ n. (n, moved r count)) (omega arith)

HoldsAt-append :
    (input : List ℕ) (at : ℕ) (xs ys : List ℕ)
    → HoldsAt input at (xs ++ ys)
    → HoldsAt input at xs × HoldsAt input (at + length xs) ys
HoldsAt-append input at xs ys h = (
  record {
    small = h.small;
    within = omega (arith, h.within, length-append xs ys);
    same = λ j lt. h.same j (omega (arith, length-append xs ys)) ∙ get_or-append_left xs ys j 0 lt;
  },
  record {
    small = h.small;
    within = omega (arith, h.within, length-append xs ys);
    same = λ j lt.
        ap (λ k. get_or input k 0) {x = at + length xs + j} {y = at + (length xs + j)} (omega arith)
        ∙ h.same (length xs + j) (omega (arith, length-append xs ys))
        ∙ get_or-append_right xs ys (length xs + j) j 0 refl;
  },
)

HoldsAt-slice :
    (input : List ℕ) (at : ℕ) (bytes : List ℕ)
    → HoldsAt input at bytes
    → take (length bytes) (drop at input) ≡ bytes
HoldsAt-slice input at bytes h =
    sym (read-get_or input at (length bytes) h.within)
    ∙ read_congr (λ i. get_or input i 0) (λ i. get_or bytes i 0) at 0 (length bytes)
        (λ i lt. h.same i lt ∙ ap (λ k. get_or bytes k 0) (omega arith))
    ∙ read_of_list bytes

slice-HoldsAt :
    (r : Reader) (bytes : List ℕ)
    → r.error ≡ 0
    → HoldsAt r.input r.position bytes
    → slice r (length bytes) ≡ (some bytes, moved r (length bytes))
unfolding slice sub_size add_size
slice-HoldsAt r bytes fine h =
    ground (arith, h.within, h.small, HoldsAt-slice r.input r.position bytes h)

-- What `tc_pb_write_bytes` writes of a byte string is read back by `tc_pb_read_bytes`, wherever it
-- stands in the input.
pub read_bytes-varint_bytes :
    (bytes : List ℕ) (r : Reader)
    → r.error ≡ 0
    → HoldsAt r.input r.position (varint_bytes (length bytes) ++ bytes)
    → read_bytes r ≡ (some bytes, moved r (length (varint_bytes (length bytes) ++ bytes)))
unfolding read_bytes
read_bytes-varint_bytes bytes r fine h =
    let (first, second) = HoldsAt-append r.input r.position (varint_bytes (length bytes)) bytes h in
    rw
      (
        read_varint-varint_bytes (length bytes) r (omega (arith, second.within, second.small)) fine
            first,
        read_bytes,
      )
      (slice-HoldsAt (moved r (length (varint_bytes (length bytes)))) bytes fine second
        ∙ ground (arith, length-append (varint_bytes (length bytes)) bytes))
