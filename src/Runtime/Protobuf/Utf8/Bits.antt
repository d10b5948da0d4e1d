-- ===== src/Runtime/Protobuf/Utf8/Bits.antt =====
-- The bit operations of `tc_pb_valid_utf8` as arithmetic.
use Prim.Native.Nat.{bit_and}
use tiny_cplus.Machine.Bits.{bit_and-mask, bit_and-above, bit_or-disjoint, bit_or_comm}
use tiny_cplus.Prelude.{
  ℕ, suc, ◌+◌, ◌*◌, ◌/◌, ◌%◌, ◌^◌, ◌<◌, ◌≤◌, ◌≡◌, refl, sym, ap, ◌∙◌, some, List, ◌∷◌, ◌==◌,
  if_cases, ==_iff, arith,
}
use tiny_cplus.Runtime.Protobuf.Utf8.{shift_in, following, tail_byte}

shift_in-eq : (v b : ℕ) → v < 2 ^ 25 → shift_in v b ≡ v * 64 + b % 64
unfolding shift_in
shift_in-eq v b h =
    bit_or_comm (v * 2 ^ 6 % 2 ^ 32) (bit_and b 63)
    ∙ ground (arith, bit_and-mask 6 b, bit_or-disjoint 6 (b % 64) v)

tail_test : (b : ℕ) → bit_and b 192 ≡ b / 64 % 4 * 64
tail_test b =
    let split : b ≡ b % 64 + b / 64 * 2 ^ 6 = omega arith in
    ap (λ x. bit_and x 192) split
    ∙ bit_and-above 6 (b % 64) (b / 64) 3 (omega arith)
    ∙ ap (λ x. x * 64) (bit_and-mask 2 (b / 64))

-- One more byte is followed where it is a tail byte.
pub following-inv :
    (n v b w : ℕ) (text rest : List ℕ)
    → b < 256
    → v < 2 ^ 25
    → following (suc n) v (b ∷ text) ≡ some (w, rest)
    → (128 ≤ b) × (b < 192) × (following n (v * 64 + b % 64) text ≡ some (w, rest))
unfolding following
following-inv n v b w text rest h k e =
    if_cases
      (λ o.
        o ≡ some (w, rest)
        → (128 ≤ b) × (b < 192) × (following n (v * 64 + b % 64) text ≡ some (w, rest)))
      (bit_and b 192 == 128)
      (λ t f. (
        omega (arith, tail_test b, (==_iff (bit_and b 192) 128).0 t),
        omega (arith, tail_test b, (==_iff (bit_and b 192) 128).0 t),
        ap (λ x. following n x text) (sym (shift_in-eq v b k)) ∙ f,
      ))
      (λ t f. absurd (cc f)) e

pub following-tail :
    (n v b : ℕ) (text : List ℕ)
    → v < 2 ^ 25
    → following (suc n) v (tail_byte b ∷ text) ≡ following n (v * 64 + b % 64) text
unfolding following
following-tail n v b text k =
    let t : bit_and (tail_byte b) 192 ≡ 128 = omega (arith, tail_test (tail_byte b)) in
    let m : tail_byte b % 64 ≡ b % 64 = omega arith in rw (t, shift_in-eq v (tail_byte b) k, m) refl

pub mask_5 : (b : ℕ) → bit_and b 31 ≡ b % 32
mask_5 b = bit_and-mask 5 b

pub mask_4 : (b : ℕ) → bit_and b 15 ≡ b % 16
mask_4 b = bit_and-mask 4 b

pub mask_3 : (b : ℕ) → bit_and b 7 ≡ b % 8
mask_3 b = bit_and-mask 3 b
