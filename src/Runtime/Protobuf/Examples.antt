-- ===== src/Runtime/Protobuf/Examples.antt =====
-- The wire format on a small message: 300 as a varint, 7 as a fixed32 and a string of two bytes.
use tiny_cplus.Prelude.{
  ℕ, ◌+◌, ◌≡◌, refl, inl, Bool, true, false, ◌↔◌, List, [], ◌∷◌, some, arith, length,
}
use tiny_cplus.Machine.{add_size, sub_size, mul_size}
use tiny_cplus.Runtime.Protobuf.Writer.{
  empty, doubled, wanted, append, varint_bytes, varint_groups, write_varint,
}
use tiny_cplus.Runtime.Protobuf.Reader.{Reader, read_varint, skip}
use tiny_cplus.Runtime.Protobuf.Varint.{moved}
use tiny_cplus.Runtime.Protobuf.Append.{IsWritable}
use tiny_cplus.Runtime.Protobuf.Written.{Follows, varint_round_trip}
use tiny_cplus.Runtime.Protobuf.Progress.{Progress}
use tiny_cplus.Runtime.Protobuf.Skip.{skip_lem}
use tiny_cplus.Runtime.Protobuf.Utf8.{
  lead_byte, shift_in, following, refuses, after_following, after_first, next_char, all_valid,
  valid_utf8, encode, encode_all, Scalars,
}
use tiny_cplus.Runtime.Protobuf.Utf8.Unicode.{valid_utf8-encode_all}

abbrev always : ℕ → Bool
always n = true

empty-IsWritable : IsWritable empty
empty-IsWritable = record {
  inside = omega arith;
  short = omega arith;
  small = omega arith;
  granted = inl refl;
}

-- A reader at the start of those bytes.
abbrev over : List ℕ → Reader
over bytes = record { input = bytes; position = 0; wire = 0; error = 0 }

varint_example : varint_bytes 300 ≡ 172 ∷ 2 ∷ []
unfolding varint_groups
varint_example = refl

varint_Follows : Follows empty (write_varint always empty 300) (over (172 ∷ 2 ∷ []))
unfolding write_varint append varint_groups wanted doubled add_size sub_size mul_size
varint_Follows = record { rest = []; input = refl; small = omega arith; at = refl; fine = refl }

varint_round_trip_example :
    (read_varint (over (172 ∷ 2 ∷ []))
      ≡ (300, moved (over (172 ∷ 2 ∷ [])) (length (varint_bytes 300))))
    × (0 + length (varint_bytes 300) ≡ length (write_varint always empty 300).bytes)
unfolding write_varint append varint_groups wanted doubled add_size sub_size mul_size
varint_round_trip_example =
    varint_round_trip always empty 300 (over (172 ∷ 2 ∷ [])) empty-IsWritable (omega arith) refl
      varint_Follows

-- A group of field 1 with a varint inside, and its end: the reader stands behind the first tag.
abbrev in_group : Reader
in_group = record { input = 11 ∷ 16 ∷ 5 ∷ 12 ∷ []; position = 1; wire = 3; error = 0 }

skip_lem_example : (s : Reader) × (skip in_group 1 ≡ some s) × Progress 0 in_group s
skip_lem_example = skip_lem in_group 1 (omega arith)

-- "é€" in UTF-8
abbrev accented : List ℕ
accented = 195 ∷ 169 ∷ 226 ∷ 130 ∷ 172 ∷ []

valid_utf8-encode_all_example :
    (valid_utf8 accented ≡ true) ↔ ((cs : List ℕ) × Scalars cs × (encode_all cs ≡ accented))
valid_utf8-encode_all_example =
    valid_utf8-encode_all accented
      (omega arith, (omega arith, (omega arith, (omega arith, (omega arith, tt)))))

test_utf8 : encode_all (233 ∷ 8364 ∷ []) ≡ accented
unfolding encode
test_utf8 = refl

test_surrogate : valid_utf8 (237 ∷ 160 ∷ 128 ∷ []) ≡ false
unfolding valid_utf8 all_valid next_char after_first lead_byte following shift_in after_following
    refuses
test_surrogate = refl
