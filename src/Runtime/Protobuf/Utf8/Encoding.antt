-- ===== src/Runtime/Protobuf/Utf8/Encoding.antt =====
-- The first bytes and the encodings of each length.
use mathlib.Core.Path.{subst}
use tiny_cplus.Prelude.{
  ℕ, ◌+◌, ◌/◌, ◌%◌, ◌<◌, ◌≤◌, ◌≡◌, refl, sym, true, false, ◌&&◌, Option, none, some, [], ◌∷◌, ltb,
  leb, if_cases, arith,
}
use tiny_cplus.Runtime.Protobuf.Utf8.{lead_byte, tail_byte, encode}
use tiny_cplus.Runtime.Protobuf.Utf8.Bits.{mask_5, mask_4, mask_3}

-- What a first byte of 128 or more says.
pub data Lead (b : ℕ) : Option (ℕ × ℕ) → Type 0 where
  not_first : Lead b none
  one : 194 ≤ b → b ≤ 223 → Lead b (some (1, b % 32))
  two : 224 ≤ b → b ≤ 239 → Lead b (some (2, b % 16))
  three : 240 ≤ b → b ≤ 244 → Lead b (some (3, b % 8))

pub Lead-lead_byte : (b : ℕ) → Lead b (lead_byte b)
unfolding lead_byte
Lead-lead_byte b =
    if_cases (Lead b) (leb 194 b && leb b 223)
      (λ e. subst (λ v. Lead b (some (1, v))) (sym (mask_5 b)) (one (ground arith) (ground arith)))
      (λ e.
        if_cases (Lead b) (leb 224 b && leb b 239)
          (λ e.
            subst (λ v. Lead b (some (2, v))) (sym (mask_4 b)) (two (ground arith) (ground arith)))
          (λ e.
            if_cases (Lead b) (leb 240 b && leb b 244)
              (λ e.
                subst (λ v. Lead b (some (3, v))) (sym (mask_3 b))
                  (three (ground arith) (ground arith)))
              (λ e. not_first)))

pub encode_1 : (c : ℕ) → c < 128 → encode c ≡ c ∷ []
unfolding encode
encode_1 c h = let e : ltb c 128 ≡ true = ground arith in rw e refl

pub encode_2 : (c : ℕ) → 128 ≤ c → c < 2048 → encode c ≡ (192 + c / 64) ∷ tail_byte c ∷ []
unfolding encode
encode_2 c h k =
    let e : ltb c 128 ≡ false = ground arith in
    let f : ltb c 2048 ≡ true = ground arith in rw (e, f) refl

pub encode_3 :
    (c : ℕ)
    → 2048 ≤ c
    → c < 65536
    → encode c ≡ (224 + c / 4096) ∷ tail_byte (c / 64) ∷ tail_byte c ∷ []
unfolding encode
encode_3 c h k =
    let e : ltb c 128 ≡ false = ground arith in
    let f : ltb c 2048 ≡ false = ground arith in
    let g : ltb c 65536 ≡ true = ground arith in rw (e, f, g) refl

pub encode_4 :
    (c : ℕ)
    → 65536 ≤ c
    → encode c ≡ (240 + c / 262144) ∷ tail_byte (c / 4096) ∷ tail_byte (c / 64) ∷ tail_byte c ∷ []
unfolding encode
encode_4 c h =
    let e : ltb c 128 ≡ false = ground arith in
    let f : ltb c 2048 ≡ false = ground arith in
    let g : ltb c 65536 ≡ false = ground arith in rw (e, f, g) refl
