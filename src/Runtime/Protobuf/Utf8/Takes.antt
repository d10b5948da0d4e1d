-- ===== src/Runtime/Protobuf/Utf8/Takes.antt =====
-- The encoding of a scalar value is taken by one round of `tc_pb_valid_utf8`.
use native.Mathlib.Decide.{dec_lt}
use tiny_cplus.Prelude.{
  ℕ, ◌+◌, ◌*◌, ◌/◌, ◌%◌, ◌<◌, ◌≤◌, ◌≡◌, refl, ap, ◌∙◌, true, false, ◌&&◌, some, List, ◌∷◌, ◌++◌,
  length, ltb, leb, arith,
}
use tiny_cplus.Runtime.Protobuf.Utf8.{
  lead_byte, following, refuses, after_following, after_first, next_char, IsScalar, tail_byte,
  encode,
}
use tiny_cplus.Runtime.Protobuf.Utf8.Bits.{following-tail, mask_5, mask_4, mask_3}
use tiny_cplus.Runtime.Protobuf.Utf8.Encoding.{encode_1, encode_2, encode_3, encode_4}

pub first_one : (b : ℕ) → 194 ≤ b → b ≤ 223 → lead_byte b ≡ some (1, b % 32)
unfolding lead_byte
first_one b l k = let e : (leb 194 b && leb b 223) ≡ true = ground arith in rw (e, mask_5 b) refl

pub first_two : (b : ℕ) → 224 ≤ b → b ≤ 239 → lead_byte b ≡ some (2, b % 16)
unfolding lead_byte
first_two b l k =
    let e : (leb 194 b && leb b 223) ≡ false = ground arith in
    let f : (leb 224 b && leb b 239) ≡ true = ground arith in rw (e, f, mask_4 b) refl

pub first_three : (b : ℕ) → 240 ≤ b → b ≤ 244 → lead_byte b ≡ some (3, b % 8)
unfolding lead_byte
first_three b l k =
    let e : (leb 194 b && leb b 223) ≡ false = ground arith in
    let f : (leb 224 b && leb b 239) ≡ false = ground arith in
    let g : (leb 240 b && leb b 244) ≡ true = ground arith in rw (e, f, g, mask_3 b) refl

-- A text that begins with the encoding of a scalar value, and what the routine makes of it
abbrev pub Taken : List ℕ → List ℕ → Type 0
Taken text rest = (b : ℕ) × (more : List ℕ) × (text ≡ b ∷ more) × (next_char b more ≡ some rest)

next_char-first :
    (b n v : ℕ) (more rest : List ℕ)
    → 128 ≤ b
    → lead_byte b ≡ some (n, v)
    → n ≤ length more
    → after_following n (following n v more) ≡ some rest
    → next_char b more ≡ some rest
unfolding next_char after_first
next_char-first b n v more rest l e k f =
    let t : ltb b 128 ≡ false = ground arith in
    let t' : ltb (length more) n ≡ false = ground arith in rw (t, e, t') f

passes :
    (n v : ℕ) (rest : List ℕ)
    → refuses n v ≡ false
    → after_following n (following 0 v rest) ≡ some rest
unfolding after_following following
passes n v rest e = rw e refl

take_two : (c : ℕ) (rest : List ℕ) → 128 ≤ c → c < 2048 → Taken (encode c ++ rest) rest
unfolding refuses
take_two c rest l k =
    let ok : refuses 1 c ≡ false = ground arith in
    let is : c / 64 * 64 + c % 64 ≡ c = omega arith in
    let low : (192 + c / 64) % 32 ≡ c / 64 = omega arith in
    (
      192 + c / 64,
      tail_byte c ∷ rest,
      ap (λ z. z ++ rest) (encode_2 c l k),
      next_char-first (192 + c / 64) 1 (c / 64) (tail_byte c ∷ rest) rest (omega arith)
          (first_one (192 + c / 64) (omega arith) (omega arith) ∙ ap (λ v. some (1, v)) low)
          (omega arith)
          (ap (after_following 1) (following-tail 0 (c / 64) c rest (omega arith))
            ∙ rw is (passes 1 c rest ok)),
    )

take_three :
    (c : ℕ) (rest : List ℕ) → 2048 ≤ c → c < 65536 → IsScalar c → Taken (encode c ++ rest) rest
unfolding refuses
take_three c rest l k s =
    let ok : refuses 2 c ≡ false = ground arith in
    let is : (c / 4096 * 64 + c / 64 % 64) * 64 + c % 64 ≡ c = omega arith in
    let low : (224 + c / 4096) % 16 ≡ c / 4096 = omega arith in
    let more : List ℕ = tail_byte (c / 64) ∷ tail_byte c ∷ rest in
    (
      224 + c / 4096,
      more,
      ap (λ z. z ++ rest) (encode_3 c l k),
      next_char-first (224 + c / 4096) 2 (c / 4096) more rest (omega arith)
          (first_two (224 + c / 4096) (omega arith) (omega arith) ∙ ap (λ v. some (2, v)) low)
          (omega arith)
          (ap (after_following 2) (
              following-tail 1 (c / 4096) (c / 64) (tail_byte c ∷ rest) (omega arith)
              ∙ following-tail 0 (c / 4096 * 64 + c / 64 % 64) c rest (omega arith))
            ∙ rw is (passes 2 c rest ok)),
    )

take_four : (c : ℕ) (rest : List ℕ) → 65536 ≤ c → c ≤ 1114111 → Taken (encode c ++ rest) rest
unfolding refuses
take_four c rest l k =
    let ok : refuses 3 c ≡ false = ground arith in
    let is : ((c / 262144 * 64 + c / 4096 % 64) * 64 + c / 64 % 64) * 64 + c % 64 ≡ c =
      omega arith in
    let low : (240 + c / 262144) % 8 ≡ c / 262144 = omega arith in
    let last : List ℕ = tail_byte c ∷ rest in
    let more : List ℕ = tail_byte (c / 4096) ∷ tail_byte (c / 64) ∷ last in
    (
      240 + c / 262144,
      more,
      ap (λ z. z ++ rest) (encode_4 c l),
      next_char-first (240 + c / 262144) 3 (c / 262144) more rest (omega arith)
          (first_three (240 + c / 262144) (omega arith) (omega arith) ∙ ap (λ v. some (3, v)) low)
          (omega arith)
          (ap (after_following 3) (
              following-tail 2 (c / 262144) (c / 4096) (tail_byte (c / 64) ∷ last) (omega arith)
              ∙ following-tail 1 (c / 262144 * 64 + c / 4096 % 64) (c / 64) last (omega arith)
              ∙ following-tail 0 ((c / 262144 * 64 + c / 4096 % 64) * 64 + c / 64 % 64) c rest
                  (omega arith))
            ∙ rw is (passes 3 c rest ok)),
    )

take_one : (c : ℕ) (rest : List ℕ) → c < 128 → Taken (encode c ++ rest) rest
unfolding next_char
take_one c rest l =
    let t : ltb c 128 ≡ true = ground arith in
    (c, rest, ap (λ z. z ++ rest) (encode_1 c l), rw t refl)

pub take_char : (c : ℕ) (rest : List ℕ) → IsScalar c → Taken (encode c ++ rest) rest
take_char c rest s = elim (dec_lt c 128) [
  | yes l ↦ take_one c rest l
  | no l ↦ elim (dec_lt c 2048) [
    | yes m ↦ take_two c rest (ground arith) m
    | no m ↦ elim (dec_lt c 65536) [
      | yes n ↦ take_three c rest (ground arith) n s
      | no n ↦ take_four c rest (ground arith) (ground arith)
    ]
  ]
]
