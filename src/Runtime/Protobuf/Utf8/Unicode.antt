-- ===== src/Runtime/Protobuf/Utf8/Unicode.antt =====
-- What `tc_pb_valid_utf8` accepts are the encodings of scalar values.
use mathlib.Core.Path.{subst}
use native.Mathlib.Nat.{le_refl}
use tiny_cplus.Prelude.{
  ℕ, zero, suc, ◌<◌, ◌≤◌, ◌≡◌, refl, sym, ap, ◌∙◌, inl, inr, ◌↔◌, Bool, true, false, Option, none,
  some, List, [], ◌∷◌, ◌++◌, length, length-append, Option-cases, arith,
}
use tiny_cplus.Runtime.Protobuf.Utf8.{
  next_char, all_valid, valid_utf8, encode, encode_all, Scalars, Bytes,
}
use tiny_cplus.Runtime.Protobuf.Utf8.Accepts.{Char-next}
use tiny_cplus.Runtime.Protobuf.Utf8.Takes.{Taken, take_char}

all_valid-nil : (left : ℕ) → all_valid left [] ≡ true
unfolding all_valid
all_valid-nil zero = refl
all_valid-nil (suc left) = refl

Bytes-rest : (xs ys : List ℕ) → Bytes (xs ++ ys) → Bytes ys
Bytes-rest [] ys h = h
Bytes-rest (x ∷ xs) ys h = Bytes-rest xs ys h.1

encode-length : (c : ℕ) → 0 < length (encode c)
unfolding encode
encode-length c = ground arith

shorter : (c : ℕ) (rest : List ℕ) → length rest < length (encode c ++ rest)
shorter c rest = omega (arith, length-append (encode c) rest, encode-length c)

-- What the rounds after one make of its outcome
valid_after : ℕ → Option (List ℕ) → Bool
valid_after left none = false
valid_after left (some rest) = all_valid left rest

all_valid-round :
    (left b : ℕ) (text : List ℕ)
    → all_valid (suc left) (b ∷ text) ≡ valid_after left (next_char b text)
unfolding all_valid valid_after
all_valid-round left b text =
    elim (next_char b text)
      as (λ o. (elim o [ none ↦ false | some rest ↦ all_valid left rest ]) ≡ valid_after left o) [
        | none ↦ refl
        | some rest ↦ refl
      ]

-- A round goes on in the rest of the text.
all_valid-Taken :
    (left : ℕ) (text rest : List ℕ)
    → Taken text rest
    → length text ≤ suc left
    → all_valid left rest ≡ true
    → all_valid (suc left) text ≡ true
unfolding valid_after
all_valid-Taken left text rest (b, more, e, f) l v =
    ap (all_valid (suc left)) e ∙ all_valid-round left b more ∙ ap (valid_after left) f ∙ v

encoded_valid :
    (cs : List ℕ) (left : ℕ)
    → Scalars cs
    → length (encode_all cs) ≤ left
    → all_valid left (encode_all cs) ≡ true
encoded_valid [] left s l = all_valid-nil left
encoded_valid (c ∷ cs) zero s l =
    let (b, more, e, f) = take_char c (encode_all cs) s.0 in absurd (omega (arith, ap length e))
encoded_valid (c ∷ cs) (suc left) s l =
    let t = take_char c (encode_all cs) s.0 in
    all_valid-Taken left (encode c ++ encode_all cs) (encode_all cs) t l
      (encoded_valid cs left s.1 (omega (arith, shorter c (encode_all cs), l)))

valid_encoded :
    (left : ℕ) (text : List ℕ)
    → Bytes text
    → all_valid left text ≡ true
    → (cs : List ℕ) × Scalars cs × (encode_all cs ≡ text)
unfolding all_valid valid_after
valid_encoded left [] h e = ([], tt, refl)
valid_encoded zero (b ∷ text) h e = absurd (cc e)
valid_encoded (suc left) (b ∷ text) h e = elim (Option-cases (next_char b text)) [
  | inl n ↦ absurd (cc (sym (all_valid-round left b text ∙ ap (valid_after left) n) ∙ e))
  | inr (rest, n) ↦
      let (c, s, f) = Char-next b text rest h.1 n in
      let (cs, ss, g) =
        valid_encoded left rest (Bytes-rest (encode c) rest (subst Bytes (sym f) h))
          (sym (all_valid-round left b text ∙ ap (valid_after left) n) ∙ e) in
      (c ∷ cs, (s, ss), ap (λ z. encode c ++ z) g ∙ f)
]

-- `tc_pb_valid_utf8` accepts a text of bytes exactly where it is the UTF-8 encoding of a list of
-- Unicode scalar values.
pub valid_utf8-encode_all :
    (text : List ℕ)
    → Bytes text
    → (valid_utf8 text ≡ true) ↔ ((cs : List ℕ) × Scalars cs × (encode_all cs ≡ text))
unfolding valid_utf8
valid_utf8-encode_all text h = (
  valid_encoded (length text) text h,
  λ (cs, s, e). subst (λ t. all_valid (length t) t ≡ true) e (encoded_valid cs _ s (le_refl _)),
)
