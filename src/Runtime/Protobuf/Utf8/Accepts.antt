-- ===== src/Runtime/Protobuf/Utf8/Accepts.antt =====
-- What a round of `tc_pb_valid_utf8` takes is the encoding of a scalar value.
use tiny_cplus.Prelude.{
  ℕ, ◌+◌, ◌*◌, ◌/◌, ◌%◌, ◌<◌, ◌≤◌, ◌≡◌, sym, ap, ◌∙◌, ◌⊎◌, inl, false, Option, none, some, List, [],
  ◌∷◌, ◌++◌, length, ltb, if_cases, if_some, ltb→lt, arith,
}
use tiny_cplus.Runtime.Protobuf.Utf8.{
  lead_byte, following, refuses, after_following, after_first, next_char, IsScalar, tail_byte,
  encode, Bytes,
}
use tiny_cplus.Runtime.Protobuf.Utf8.Bits.{following-inv}
use tiny_cplus.Runtime.Protobuf.Utf8.Encoding.{
  Lead, Lead-lead_byte, encode_1, encode_2, encode_3, encode_4, not_first, one, two, three,
}

-- The test after the loop.
accepted :
    (count : ℕ) (o : Option (ℕ × List ℕ)) (rest : List ℕ)
    → after_following count o ≡ some rest
    → (value : ℕ) × (o ≡ some (value, rest)) × (refuses count value ≡ false)
unfolding after_following
accepted count none rest e = absurd (cc e)
accepted count (some (v, text)) rest e =
    let (f, g) = if_some (refuses count v) text rest e in (v, ap (λ t. some (v, t)) g, f)

-- The text begins with the encoding of a scalar value.
abbrev Char : ℕ → List ℕ → List ℕ → Type 0
Char b text rest = (c : ℕ) × IsScalar c × (encode c ++ rest ≡ b ∷ text)

refuses_two : (v : ℕ) → refuses 2 v ≡ false → (2048 ≤ v) × ((v < 55296) ⊎ (57344 ≤ v))
unfolding refuses
refuses_two v e = ground arith

refuses_three : (v : ℕ) → refuses 3 v ≡ false → (65536 ≤ v) × (v ≤ 1114111)
unfolding refuses
refuses_three v e = ground arith

ends_here :
    (v w : ℕ) (text rest : List ℕ) → following 0 v text ≡ some (w, rest) → (v ≡ w) × (text ≡ rest)
unfolding following
ends_here v w text rest e = (cc e, cc e)

-- Four bytes and fewer, one after another
read_two :
    (b t v : ℕ) (text rest : List ℕ)
    → 194 ≤ b
    → b ≤ 223
    → t < 256
    → following 1 (b % 32) (t ∷ text) ≡ some (v, rest)
    → Char b (t ∷ text) rest
read_two b t v text rest l k h e =
    let (f, g, i) = following-inv 0 (b % 32) t v text rest h (omega arith) e in
    let (j, m) = ends_here (b % 32 * 64 + t % 64) v text rest i in
    let byte_1 : 192 + v / 64 ≡ b = omega arith in
    let byte_2 : tail_byte v ≡ t = omega arith in
    (
      v,
      inl (omega arith),
      ap (λ z. z ++ rest) (encode_2 v (omega arith) (omega arith)) ∙ cc (byte_1, byte_2, m),
    )

read_three :
    (b t u v : ℕ) (text rest : List ℕ)
    → 224 ≤ b
    → b ≤ 239
    → t < 256
    → u < 256
    → following 2 (b % 16) (t ∷ u ∷ text) ≡ some (v, rest)
    → refuses 2 v ≡ false
    → Char b (t ∷ u ∷ text) rest
read_three b t u v text rest l k h h' e r =
    let (f, g, i) = following-inv 1 (b % 16) t v (u ∷ text) rest h (omega arith) e in
    let (f', g', i') = following-inv 0 (b % 16 * 64 + t % 64) u v text rest h' (omega arith) i in
    let (j, m) = ends_here ((b % 16 * 64 + t % 64) * 64 + u % 64) v text rest i' in
    let (n, o) = refuses_two v r in
    let byte_1 : 224 + v / 4096 ≡ b = omega arith in
    let byte_2 : tail_byte (v / 64) ≡ t = omega arith in
    let byte_3 : tail_byte v ≡ u = omega arith in
    (
      v,
      ground arith,
      ap (λ z. z ++ rest) (encode_3 v n (omega arith)) ∙ cc (byte_1, byte_2, byte_3, m),
    )

read_four :
    (b t u x v : ℕ) (text rest : List ℕ)
    → 240 ≤ b
    → b ≤ 244
    → t < 256
    → u < 256
    → x < 256
    → following 3 (b % 8) (t ∷ u ∷ x ∷ text) ≡ some (v, rest)
    → refuses 3 v ≡ false
    → Char b (t ∷ u ∷ x ∷ text) rest
read_four b t u x v text rest l k h h' h'' e r =
    let (f, g, i) = following-inv 2 (b % 8) t v (u ∷ x ∷ text) rest h (omega arith) e in
    let (f', g', i') =
      following-inv 1 (b % 8 * 64 + t % 64) u v (x ∷ text) rest h' (omega arith) i in
    let (f'', g'', i'') =
      following-inv 0 ((b % 8 * 64 + t % 64) * 64 + u % 64) x v text rest h'' (omega arith) i' in
    let (j, m) = ends_here (((b % 8 * 64 + t % 64) * 64 + u % 64) * 64 + x % 64) v text rest i'' in
    let (n, o) = refuses_three v r in
    let byte_1 : 240 + v / 262144 ≡ b = omega arith in
    let byte_2 : tail_byte (v / 4096) ≡ t = omega arith in
    let byte_3 : tail_byte (v / 64) ≡ u = omega arith in
    let byte_4 : tail_byte v ≡ x = omega arith in
    (v, ground arith, ap (λ z. z ++ rest) (encode_4 v n) ∙ cc (byte_1, byte_2, byte_3, byte_4, m))

-- What follows a first byte of each kind
Char-one :
    (b : ℕ) (text rest : List ℕ)
    → 194 ≤ b
    → b ≤ 223
    → Bytes text
    → after_first (some (1, b % 32)) text ≡ some rest
    → Char b text rest
unfolding after_first
Char-one b [] rest l k h e = absurd (cc e)
Char-one b (t ∷ text) rest l k h e =
    if_cases (λ o. o ≡ some rest → Char b (t ∷ text) rest) (ltb (length (t ∷ text)) 1)
      (λ f g. absurd (cc g))
      (λ f g. let (v, i, r) = accepted 1 _ rest g in read_two b t v text rest l k h.0 i) e

Char-two :
    (b : ℕ) (text rest : List ℕ)
    → 224 ≤ b
    → b ≤ 239
    → Bytes text
    → after_first (some (2, b % 16)) text ≡ some rest
    → Char b text rest
unfolding after_first
Char-two b [] rest l k h e = absurd (cc e)
Char-two b (t ∷ []) rest l k h e = absurd (cc e)
Char-two b (t ∷ u ∷ text) rest l k h e =
    if_cases (λ o. o ≡ some rest → Char b (t ∷ u ∷ text) rest) (ltb (length (t ∷ u ∷ text)) 2)
      (λ f g. absurd (cc g))
      (λ f g. let (v, i, r) = accepted 2 _ rest g in read_three b t u v text rest l k h.0 h.1.0 i r)
      e

Char-three :
    (b : ℕ) (text rest : List ℕ)
    → 240 ≤ b
    → b ≤ 244
    → Bytes text
    → after_first (some (3, b % 8)) text ≡ some rest
    → Char b text rest
unfolding after_first
Char-three b [] rest l k h e = absurd (cc e)
Char-three b (t ∷ []) rest l k h e = absurd (cc e)
Char-three b (t ∷ u ∷ []) rest l k h e = absurd (cc e)
Char-three b (t ∷ u ∷ x ∷ text) rest l k h e =
    if_cases (λ o. o ≡ some rest → Char b (t ∷ u ∷ x ∷ text) rest)
      (ltb (length (t ∷ u ∷ x ∷ text)) 3) (λ f g. absurd (cc g))
      (λ f g.
        let (v, i, r) = accepted 3 _ rest g in
        read_four b t u x v text rest l k h.0 h.1.0 h.1.1.0 i r)
      e

Char-lead :
    (b : ℕ) (text rest : List ℕ) (o : Option (ℕ × ℕ))
    → Lead b o
    → Bytes text
    → after_first o text ≡ some rest
    → Char b text rest
unfolding after_first
Char-lead b text rest none not_first h e = absurd (cc e)
Char-lead b text rest (some f) (one l k) h e = Char-one b text rest l k h e
Char-lead b text rest (some f) (two l k) h e = Char-two b text rest l k h e
Char-lead b text rest (some f) (three l k) h e = Char-three b text rest l k h e

pub Char-next :
    (b : ℕ) (text rest : List ℕ) → Bytes text → next_char b text ≡ some rest → Char b text rest
unfolding next_char
Char-next b text rest h e =
    if_cases (λ o. o ≡ some rest → Char b text rest) (ltb b 128)
      (λ f g.
        let l = ltb→lt b 128 f in
        (b, inl (omega arith), ap (λ z. z ++ rest) (encode_1 b l) ∙ ap (λ z. b ∷ z) (sym (cc g))))
      (λ f g. Char-lead b text rest (lead_byte b) (Lead-lead_byte b) h g) e
