-- ===== src/Runtime/Tui/Code.antt =====
-- What the terminal's encoder writes, its decoder reads back.
use Prim.Native.Nat.{bit_and, bit_or}
use native.Mathlib.Nat.{le_refl}
use native.Mathlib.Decide.{dec_lt}
use tiny_cplus.Machine.Bits.{bit_and-mask, bit_or-disjoint, bit_or_comm}
use tiny_cplus.Prelude.{
  ℕ, zero, suc, ◌+◌, ◌*◌, ◌/◌, ◌%◌, ◌^◌, ◌<◌, ◌≤◌, ◌≡◌, refl, sym, ap, ◌∙◌, true, false, ◌&&◌, ◌||◌,
  Option, none, some, List, [], ◌∷◌, ◌++◌, length, ltb, leb, ◌==◌, if_cases, ltb→lt, ltb→ge, arith,
}
use tiny_cplus.Runtime.Protobuf.Utf8.{lead_byte, shift_in, following, IsScalar, tail_byte, encode}
use tiny_cplus.Runtime.Protobuf.Utf8.Bits.{following-tail}
use tiny_cplus.Runtime.Protobuf.Utf8.Encoding.{encode_1, encode_2, encode_3, encode_4}
use tiny_cplus.Runtime.Protobuf.Utf8.Takes.{first_one, first_two, first_three}
use tiny_cplus.Runtime.Tui.{
  encode_valid, encode_utf8, misfit, decode_tail, decode_lead, decode_utf8,
}

-- A mark over a field of k bits
marked : (k high low : ℕ) → low < 2 ^ k → bit_or (high * 2 ^ k) low ≡ high * 2 ^ k + low
marked k high low h = bit_or_comm (high * 2 ^ k) low ∙ bit_or-disjoint k low high h ∙ omega arith

tail_mark : (c : ℕ) → bit_or 128 (bit_and c 63) ≡ tail_byte c
tail_mark c = ap (bit_or 128) (bit_and-mask 6 c) ∙ marked 6 2 (c % 64) (omega arith)

encode_valid-encode : (c : ℕ) → c ≤ 1114111 → encode_valid c ≡ encode c
unfolding encode_valid
encode_valid-encode c h =
    let last = tail_mark c in
    let middle = tail_mark (c / 64) in
    let first = tail_mark (c / 4096) in
    if_cases (λ bs. bs ≡ encode c) (ltb c 128) (λ e. sym (encode_1 c (ltb→lt c 128 e)))
      (λ e.
        if_cases (λ bs. bs ≡ encode c) (ltb c 2048)
          (λ f.
            let head : bit_or 192 (c / 2 ^ 6) ≡ 192 + c / 64 =
              marked 5 6 (c / 64) (omega (arith, ltb→lt c 2048 f)) in
            cc (head, last, encode_2 c (ltb→ge c 128 e) (ltb→lt c 2048 f)))
          (λ f.
            if_cases (λ bs. bs ≡ encode c) (ltb c 65536)
              (λ g.
                let head : bit_or 224 (c / 2 ^ 12) ≡ 224 + c / 4096 =
                  marked 4 14 (c / 4096) (omega (arith, ltb→lt c 65536 g)) in
                cc (head, middle, last, encode_3 c (ltb→ge c 2048 f) (ltb→lt c 65536 g)))
              (λ g.
                let head : bit_or 240 (c / 2 ^ 18) ≡ 240 + c / 262144 =
                  marked 3 30 (c / 262144) (omega arith) in
                cc (head, first, middle, last, encode_4 c (ltb→ge c 65536 g)))))

-- The terminal's encoder writes UTF-8.
pub encode_utf8-encode : (c : ℕ) → IsScalar c → encode_utf8 c ≡ encode c
unfolding encode_utf8
encode_utf8-encode c s =
    let valid : (ltb 1114111 c || (leb 55296 c && leb c 57343)) ≡ false = ground arith in
    rw valid (encode_valid-encode c (ground arith))

decode-first :
    (b n v cp : ℕ) (more rest : List ℕ)
    → 128 ≤ b
    → lead_byte b ≡ some (n, v)
    → n ≤ length more
    → following n v more ≡ some (cp, rest)
    → misfit n cp ≡ false
    → decode_utf8 (b ∷ more) ≡ (cp, rest)
unfolding decode_utf8 decode_lead decode_tail
decode-first b n v cp more rest l e k f g =
    let t : ltb b 128 ≡ false = ground arith in
    let t' : ltb (length more) n ≡ false = ground arith in rw (t, e, t', f, g) refl

all_followed : (v cp : ℕ) (rest : List ℕ) → v ≡ cp → following 0 v rest ≡ some (cp, rest)
unfolding following
all_followed v cp rest e = ap (λ n. some (n, rest)) e

decode_one : (c : ℕ) (rest : List ℕ) → c < 128 → decode_utf8 (encode c ++ rest) ≡ (c, rest)
unfolding decode_utf8
decode_one c rest l = let t : ltb c 128 ≡ true = ground arith in rw (encode_1 c l, t) refl

decode_two :
    (c : ℕ) (rest : List ℕ) → 128 ≤ c → c < 2048 → decode_utf8 (encode c ++ rest) ≡ (c, rest)
unfolding misfit
decode_two c rest l k =
    let low : (192 + c / 64) % 32 ≡ c / 64 = omega arith in
    ap (λ z. decode_utf8 (z ++ rest)) (encode_2 c l k)
    ∙ decode-first (192 + c / 64) 1 (c / 64) c (tail_byte c ∷ rest) rest (omega arith)
        (first_one (192 + c / 64) (omega arith) (omega arith) ∙ ap (λ v. some (1, v)) low)
        (omega arith)
        (following-tail 0 (c / 64) c rest (omega arith) ∙ all_followed _ c rest (omega arith))
        (ground arith)

decode_three :
    (c : ℕ) (rest : List ℕ)
    → 2048 ≤ c
    → c < 65536
    → IsScalar c
    → decode_utf8 (encode c ++ rest) ≡ (c, rest)
unfolding misfit
decode_three c rest l k s =
    let low : (224 + c / 4096) % 16 ≡ c / 4096 = omega arith in
    ap (λ z. decode_utf8 (z ++ rest)) (encode_3 c l k)
    ∙ decode-first (224 + c / 4096) 2 (c / 4096) c (tail_byte (c / 64) ∷ tail_byte c ∷ rest) rest
        (omega arith)
        (first_two (224 + c / 4096) (omega arith) (omega arith) ∙ ap (λ v. some (2, v)) low)
        (omega arith)
        (following-tail 1 (c / 4096) (c / 64) (tail_byte c ∷ rest) (omega arith)
          ∙ following-tail 0 (c / 4096 * 64 + c / 64 % 64) c rest (omega arith)
          ∙ all_followed _ c rest (omega arith))
        (ground arith)

decode_four :
    (c : ℕ) (rest : List ℕ) → 65536 ≤ c → c ≤ 1114111 → decode_utf8 (encode c ++ rest) ≡ (c, rest)
unfolding misfit
decode_four c rest l k =
    let low : (240 + c / 262144) % 8 ≡ c / 262144 = omega arith in
    let last : List ℕ = tail_byte c ∷ rest in
    ap (λ z. decode_utf8 (z ++ rest)) (encode_4 c l)
    ∙ decode-first (240 + c / 262144) 3 (c / 262144) c
        (tail_byte (c / 4096) ∷ tail_byte (c / 64) ∷ last) rest (omega arith)
        (first_three (240 + c / 262144) (omega arith) (omega arith) ∙ ap (λ v. some (3, v)) low)
        (omega arith)
        (following-tail 2 (c / 262144) (c / 4096) (tail_byte (c / 64) ∷ last) (omega arith)
          ∙ following-tail 1 (c / 262144 * 64 + c / 4096 % 64) (c / 64) last (omega arith)
          ∙ following-tail 0 ((c / 262144 * 64 + c / 4096 % 64) * 64 + c / 64 % 64) c rest
              (omega arith)
          ∙ all_followed _ c rest (omega arith))
        (ground arith)

-- What `tc_utf8_encode` writes for a Unicode scalar value, `tc_utf8_decode` reads back, whatever
-- follows it.
pub decode_utf8-encode_utf8 :
    (c : ℕ) (rest : List ℕ) → IsScalar c → decode_utf8 (encode_utf8 c ++ rest) ≡ (c, rest)
decode_utf8-encode_utf8 c rest s =
    ap (λ z. decode_utf8 (z ++ rest)) (encode_utf8-encode c s) ∙ elim (dec_lt c 128) [
      | yes l ↦ decode_one c rest l
      | no l ↦ elim (dec_lt c 2048) [
        | yes m ↦ decode_two c rest (ground arith) m
        | no m ↦ elim (dec_lt c 65536) [
          | yes n ↦ decode_three c rest (ground arith) n s
          | no n ↦ decode_four c rest (ground arith) (ground arith)
        ]
      ]
    ]

following-length :
    (n v cp : ℕ) (text rest : List ℕ)
    → following n v text ≡ some (cp, rest)
    → length rest ≤ length text
unfolding following
following-length zero v cp text rest e =
    let same : text ≡ rest = cc e in omega (arith, ap length same)
following-length (suc n) v cp [] rest e = absurd (cc e)
following-length (suc n) v cp (b ∷ text) rest e =
    if_cases (λ o. o ≡ some (cp, rest) → length rest ≤ length (b ∷ text)) (bit_and b 192 == 128)
      (λ f g. omega (arith, following-length n (shift_in v b) cp text rest g))
      (λ f g. absurd (cc g)) e

Shorter : List ℕ → ℕ × List ℕ → Type 0
Shorter text r = length r.1 ≤ length text

decode_tail-Shorter :
    (n : ℕ) (o : Option (ℕ × List ℕ)) (text : List ℕ)
    → ((cp : ℕ) (rest : List ℕ) → o ≡ some (cp, rest) → length rest ≤ length text)
    → Shorter text (decode_tail n o text)
unfolding decode_tail Shorter
decode_tail-Shorter n none text h = le_refl _
decode_tail-Shorter n (some (cp, rest)) text h =
    if_cases (Shorter text) (misfit n cp) (λ e. le_refl _) (λ e. h cp rest refl)

decode_lead-Shorter : (o : Option (ℕ × ℕ)) (text : List ℕ) → Shorter text (decode_lead o text)
unfolding decode_lead Shorter
decode_lead-Shorter none text = le_refl _
decode_lead-Shorter (some (n, v)) text =
    if_cases (Shorter text) (ltb (length text) n) (λ e. le_refl _)
      (λ e.
        decode_tail-Shorter n (following n v text) text
          (λ cp rest f. following-length n v cp text rest f))

-- The decoder takes a byte at least.
pub decode_utf8-length : (b : ℕ) (text : List ℕ) → length (decode_utf8 (b ∷ text)).1 ≤ length text
unfolding decode_utf8 Shorter
decode_utf8-length b text =
    if_cases (Shorter text) (ltb b 128) (λ e. le_refl _)
      (λ e. decode_lead-Shorter (lead_byte b) text)
