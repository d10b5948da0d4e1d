-- ===== src/Runtime/Protobuf/Writer.antt =====
-- runtime/protobuf.c: the writer, from `TcPbWriter` to `tc_pb_writer_take`.
use Prim.Native.Nat.{bit_and, bit_or}
use tiny_cplus.Prelude.{
  ℕ, zero, suc, ◌/◌, ◌%◌, ◌^◌, Bool, true, false, not, ◌&&◌, List, [], ◌∷◌, ◌++◌, Option, none,
  some, ltb, ◌==◌, if◌then◌else◌, length,
}
use tiny_cplus.Runtime.Protobuf.{limit}
use tiny_cplus.Machine.{add_size, sub_size, mul_size}

-- `TcPbWriter`: `bytes` is data[0 .. length). The data is NULL exactly while `capacity` is 0.
pub record Writer : Type 0 where
  pub bytes : List ℕ
  pub capacity : ℕ
  pub error : ℕ

-- `tc_pb_writer`, once its memory is granted
abbrev pub empty : Writer
empty = record { bytes = []; capacity = 0; error = 0 }

-- `while (capacity < need) capacity *= 2;` on fuel
unfoldable pub doubled : ℕ → ℕ → ℕ → ℕ
doubled zero capacity need = capacity
doubled (suc fuel) capacity need = elim (ltb capacity need) [
  | true ↦ doubled fuel (mul_size capacity 2) need
  | false ↦ capacity
]

-- The capacity that `tc_pb_append` asks realloc for. From 128 on, 20 doublings pass the limit.
unfoldable pub wanted : Writer → ℕ → ℕ
wanted w need = doubled 20 (if w.capacity == 0 then 128 else w.capacity) need

-- `tc_pb_append`. `realloc` says whether it grants so many bytes; it keeps what was there.
unfoldable pub append : (ℕ → Bool) → Writer → List ℕ → Writer
append realloc w more =
    let need = add_size (length w.bytes) (length more) in
    if not (w.error == 0)
    then w
    else if ltb (sub_size limit (length w.bytes)) (length more)
    then record w { error = 8 }
    else if not (ltb w.capacity need)
    then record w { bytes = w.bytes ++ more }
    else if realloc (wanted w need)
    then record w { bytes = w.bytes ++ more; capacity = wanted w need }
    else record w { error = 8 }

-- The bytes of `tc_pb_write_varint`, with at most so many before the last: the buffer has 10.
unfoldable pub varint_groups : ℕ → ℕ → List ℕ
varint_groups zero value = value % 256 ∷ []
varint_groups (suc left) value = elim (ltb 127 value) [
  | true ↦ bit_or (bit_and value 127) 128 % 256 ∷ varint_groups left (value / 2 ^ 7)
  | false ↦ value % 256 ∷ []
]

abbrev pub varint_bytes : ℕ → List ℕ
varint_bytes = varint_groups 9

unfoldable pub write_varint : (ℕ → Bool) → Writer → ℕ → Writer
write_varint realloc w value = append realloc w (varint_bytes value)

-- The loop of `tc_pb_write_fixed`.
unfoldable pub fixed_bytes : ℕ → ℕ → List ℕ
fixed_bytes zero value = []
fixed_bytes (suc count) value = value % 256 ∷ fixed_bytes count (value / 2 ^ 8)

-- A negative `count` fails as any other than 4 and 8 does.
unfoldable pub write_fixed : (ℕ → Bool) → Writer → ℕ → ℕ → Writer
write_fixed realloc w value count =
    if not (count == 4) && not (count == 8)
    then record w { error = 3 }
    else append realloc w (fixed_bytes count value)

unfoldable pub write_bytes : (ℕ → Bool) → Writer → List ℕ → Writer
write_bytes realloc w bytes = append realloc (write_varint realloc w (length bytes)) bytes

-- `tc_pb_writer_take`: `none` is the NULL string. `malloc` says whether it grants the one byte that
-- stands for an empty message.
unfoldable pub take_bytes : Bool → Writer → Option (List ℕ) × Writer
take_bytes malloc w =
    if not (w.error == 0)
    then (none, w)
    else if w.capacity == 0 && not malloc
    then (none, record w { error = 8 })
    else (some w.bytes, record w { bytes = []; capacity = 0 })
