-- ===== src/Runtime/Grpc/Message.antt =====
-- runtime/grpc.c: `TcGrpcBuffer`, the frame around a message, and `TcGrpcResponse`.
use tiny_cplus.Prelude.{
  ℕ, zero, suc, ◌+◌, ◌*◌, ◌/◌, ◌%◌, ◌^◌, Bool, true, false, ◌||◌, not, Option, none, some, List, [],
  ◌∷◌, ◌++◌, length, ltb, ◌==◌, if◌then◌else◌,
}
use tiny_cplus.Prelude.Int.{ℤ, pos, ltb_ℤ, pos_part}
use tiny_cplus.Machine.{add_size, sub_size, mul_size}
use tiny_cplus.Runtime.Grpc.{limit}

-- `bytes` are the first `length` bytes of the C's data.
pub record Buffer : Type 0 where
  pub bytes : List ℕ
  pub capacity : ℕ

abbrev pub empty_buffer : Buffer
empty_buffer = record { bytes = []; capacity = 0 }

-- `while (capacity < need) capacity *= 2;`
unfoldable pub doubled : ℕ → ℕ → ℕ → ℕ
doubled zero capacity need = capacity
doubled (suc fuel) capacity need =
    let more = doubled fuel (mul_size capacity 2) need in
    if ltb capacity need then more else capacity

-- Enough from one on for what the limit allows
abbrev pub doublings : ℕ
doublings = 24

-- `tc_grpc_buffer_add`: whether it fails, and the buffer; `realloc` is whether realloc finds as much
-- memory.
unfoldable pub buffer_add : (ℕ → Bool) → Buffer → List ℕ → Bool × Buffer
buffer_add realloc b text =
    let need = add_size (length b.bytes) (length text) in
    let capacity = doubled doublings (if b.capacity == 0 then 256 else b.capacity) need in
    if ltb (sub_size (limit + 5) (length b.bytes)) (length text)
    then (true, b)
    else if ltb b.capacity need
    then if realloc capacity
      then (false, record { bytes = b.bytes ++ text; capacity = capacity })
      else (true, b)
    else (false, record b { bytes = b.bytes ++ text })

-- The five bytes before a message: it is not compressed, and its size in big-endian order.
unfoldable pub header : ℕ → List ℕ
header size = 0 ∷ size / 2 ^ 24 % 256 ∷ size / 2 ^ 16 % 256 ∷ size / 2 ^ 8 % 256 ∷ size % 256 ∷ []

-- `tc_grpc_pack`: whether it fails, and the buffer
unfoldable pub pack : (ℕ → Bool) → Buffer → List ℕ → Bool × Buffer
pack realloc b text =
    let first = buffer_add realloc b (header (length text)) in
    if ltb limit (length text)
    then (true, b)
    else if first.0
    then first
    else buffer_add realloc first.1 text

-- The size in a header: its four fields do not overlap.
unfoldable pub size_field : ℕ → ℕ → ℕ → ℕ → ℕ
size_field a b c d = a * 2 ^ 24 + b * 2 ^ 16 + c * 2 ^ 8 + d

-- `tc_grpc_unpack` on the bytes of a buffer: the code and, where it is 0, the message
unfoldable pub unpack : List ℕ → ℕ × List ℕ
unpack (flag ∷ a ∷ b ∷ c ∷ d ∷ text) =
    if not (flag == 0)
    then (12, [])
    else if ltb limit (size_field a b c d) || not (length text + 5 == size_field a b c d + 5)
    then (13, [])
    else (0, text)
unpack bytes = (13, [])

pub record Response : Type 0 where
  pub text : List ℕ
  pub status : ℕ

-- `tc_grpc_response`, where `memory` is whether calloc finds memory and `copied` whether
-- tc_string_copy does
unfoldable pub respond : Bool → Bool → List ℕ → ℤ → Option Response
respond memory copied text status =
    if memory
    then some (
        if ltb limit (length text) || not copied then record { text = []; status = 8 } else record {
          text = text;
          status = if ltb_ℤ status (pos 0) || ltb_ℤ (pos 16) status then 2 else pos_part status;
        })
    else none

-- `tc_grpc_response_data` and `tc_grpc_response_status` of a response or NULL
unfoldable pub response_text : Option Response → List ℕ
response_text none = []
response_text (some r) = r.text

unfoldable pub response_status : Option Response → ℕ
response_status none = 8
response_status (some r) = r.status
