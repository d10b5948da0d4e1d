-- ===== src/Runtime/Protobuf/Utf8.antt =====
-- runtime/protobuf.c: `tc_pb_valid_utf8`, and an account of UTF-8 by its encoder.
pub mod Bits
pub mod Encoding
pub mod Accepts
pub mod Takes
pub mod Unicode
use Prim.Native.Nat.{bit_and, bit_or}
use tiny_cplus.Prelude.{
  ℕ, zero, suc, ◌+◌, ◌*◌, ◌/◌, ◌%◌, ◌^◌, ◌<◌, ◌≤◌, ◌≡◌, ◌⊎◌, Bool, true, false, ◌&&◌, ◌||◌, not,
  Option, none, some, List, [], ◌∷◌, ◌++◌, length, ltb, leb, ◌==◌, if◌then◌else◌,
}

-- The number of bytes that follow a first byte, and the bits that it holds
unfoldable pub lead_byte : ℕ → Option (ℕ × ℕ)
lead_byte byte =
    if leb 194 byte && leb byte 223
    then some (1, bit_and byte 31)
    else if leb 224 byte && leb byte 239
    then some (2, bit_and byte 15)
    else if leb 240 byte && leb byte 244
    then some (3, bit_and byte 7)
    else none

-- `value = (value << 6) | (byte & 63)` in 32 bits
unfoldable pub shift_in : ℕ → ℕ → ℕ
shift_in value byte = bit_or (value * 2 ^ 6 % 2 ^ 32) (bit_and byte 63)

-- The loop over the bytes that follow: the value, and the text after them
unfoldable pub following : ℕ → ℕ → List ℕ → Option (ℕ × List ℕ)
following zero value text = some (value, text)
following (suc count) value [] = none
following (suc count) value (byte ∷ text) =
    let rest = following count (shift_in value byte) text in
    if bit_and byte 192 == 128 then rest else none

-- The test after the loop: too long an encoding, beyond Unicode or a surrogate
unfoldable pub refuses : ℕ → ℕ → Bool
refuses count value =
    (count == 2 && ltb value 2048)
    || (count == 3 && ltb value 65536)
    || ltb 1114111 value
    || (leb 55296 value && leb value 57343)

unfoldable pub after_following : ℕ → Option (ℕ × List ℕ) → Option (List ℕ)
after_following count none = none
after_following count (some (value, text)) = if refuses count value then none else some text

unfoldable pub after_first : Option (ℕ × ℕ) → List ℕ → Option (List ℕ)
after_first none text = none
after_first (some (count, value)) text =
    if ltb (length text) count then none else after_following count (following count value text)

-- One round of the outer loop: the text after one character, or none where the routine answers 0
unfoldable pub next_char : ℕ → List ℕ → Option (List ℕ)
next_char byte text = if ltb byte 128 then some text else after_first (lead_byte byte) text

unfoldable pub all_valid : ℕ → List ℕ → Bool
all_valid left [] = true
all_valid zero (byte ∷ text) = false
all_valid (suc left) (byte ∷ text) = elim (next_char byte text) [
  | none ↦ false
  | some rest ↦ all_valid left rest
]

-- `tc_pb_valid_utf8` of a text whose data is not NULL, or empty: each round reads a byte, so that as
-- many rounds as bytes are enough.
unfoldable pub valid_utf8 : List ℕ → Bool
valid_utf8 text = all_valid (length text) text

-- The Unicode scalar values
abbrev pub IsScalar : ℕ → Type 0
IsScalar c = (c < 55296) ⊎ ((57344 ≤ c) × (c ≤ 1114111))

abbrev pub tail_byte : ℕ → ℕ
tail_byte c = 128 + c % 64

-- UTF-8 as RFC 3629 has it: the encoding of a scalar value
unfoldable pub encode : ℕ → List ℕ
encode c =
    if ltb c 128
    then c ∷ []
    else if ltb c 2048
    then (192 + c / 64) ∷ tail_byte c ∷ []
    else if ltb c 65536
    then (224 + c / 4096) ∷ tail_byte (c / 64) ∷ tail_byte c ∷ []
    else (240 + c / 262144) ∷ tail_byte (c / 4096) ∷ tail_byte (c / 64) ∷ tail_byte c ∷ []

abbrev pub encode_all : List ℕ → List ℕ
encode_all [] = []
encode_all (c ∷ cs) = encode c ++ encode_all cs

abbrev pub Scalars : List ℕ → Type 0
Scalars [] = Unit
Scalars (c ∷ cs) = IsScalar c × Scalars cs

abbrev pub Bytes : List ℕ → Type 0
Bytes [] = Unit
Bytes (b ∷ bs) = (b < 256) × Bytes bs
