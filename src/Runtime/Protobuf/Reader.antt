-- ===== src/Runtime/Protobuf/Reader.antt =====
-- runtime/protobuf.c: the reader, from `TcPbReader` to `tc_pb_skip`.
use Prim.Native.Nat.{bit_and, bit_or}
use tiny_cplus.Prelude.{
  ℕ, zero, suc, ◌+◌, ◌*◌, ◌/◌, ◌%◌, ◌^◌, Bool, not, ◌&&◌, ◌||◌, List, [], Option, none, some, ltb,
  ◌==◌, if◌then◌else◌, length, get_or, take, drop,
}
use tiny_cplus.Runtime.Protobuf.{limit}
use tiny_cplus.Machine.{add_size, sub_size, word}

-- `TcPbReader`. A null input has no bytes and the error 3 from the start.
pub record Reader : Type 0 where
  pub input : List ℕ
  pub position : ℕ
  pub wire : ℕ
  pub error : ℕ

-- A TinyString argument: NULL with a length, or bytes.
pub data Input : Type 0 where
  null : ℕ → Input
  view : List ℕ → Input

abbrev unread : List ℕ → ℕ → Reader
unread input error = record { input = input; position = 0; wire = 0; error = error }

-- `tc_pb_reader`, once its memory is granted
unfoldable pub reader : Input → Reader
reader (null n) = unread [] (if n == 0 then 0 else 3)
reader (view bytes) = unread bytes (if ltb limit (length bytes) then 3 else 0)

abbrev pub fail : Reader → Reader
fail r = record r { error = 3 }

-- r->error || r->position == r->input.length
unfoldable pub done : Reader → Bool
done r = not (r.error == 0) || r.position == length r.input

abbrev pub advanced : Reader → ℕ → Reader
advanced r n = record r { position = add_size r.position n }

-- The loop of `tc_pb_read_varint` at round `i`, with the rounds left, 10 - i.
unfoldable pub varint_from : ℕ → ℕ → ℕ → Reader → ℕ × Reader
varint_from zero i value r = (0, fail r)
varint_from (suc left) i value r =
    let byte = get_or r.input r.position 0 in
    let value' = bit_or value (bit_and byte 127 * 2 ^ (7 * i) % word) in
    let rest = varint_from left (i + 1) value' (advanced r 1) in
    if not (ltb r.position (length r.input))
    then (0, fail r)
    else if i == 9 && ltb 1 byte
    then (0, fail (advanced r 1))
    else if bit_and byte 128 == 0
    then (value', advanced r 1)
    else rest

unfoldable pub read_varint : Reader → ℕ × Reader
read_varint r = if not (r.error == 0) then (0, r) else varint_from 10 0 0 r

-- The loop of `tc_pb_read_fixed` at byte `i`.
unfoldable pub fixed_from : ℕ → ℕ → ℕ → Reader → ℕ × Reader
fixed_from zero i value r = (value, r)
fixed_from (suc left) i value r =
    fixed_from left (i + 1) (bit_or value (get_or r.input r.position 0 * 2 ^ (8 * i) % word))
      (advanced r 1)

unfoldable pub read_fixed : Reader → ℕ → ℕ × Reader
read_fixed r count =
    if not (r.error == 0)
    then (0, r)
    else if not (count == 4) && not (count == 8) || ltb (sub_size (length r.input) r.position) count
    then (0, fail r)
    else fixed_from count 0 0 r

-- The bytes that `tc_pb_read_bytes` hands out are a view of the input; `none` is the NULL string.
unfoldable pub slice : Reader → ℕ → Option (List ℕ) × Reader
slice r n =
    if not (r.error == 0) || ltb (sub_size (length r.input) r.position) n
    then (none, fail r)
    else (some (take n (drop r.position r.input)), advanced r n)

unfoldable pub read_bytes : Reader → Option (List ℕ) × Reader
unfolding slice
read_bytes r = let (n, r') = read_varint r in slice r' n

-- What `tc_pb_next` makes of a tag.
unfoldable pub tagged : ℕ × Reader → ℕ × Reader
tagged (tag, r) =
    let wire = bit_and (tag % 2 ^ 32) 7 in
    let r' = record r { wire = wire } in
    if not (r.error == 0) || tag / 2 ^ 3 == 0 || ltb 536870911 (tag / 2 ^ 3) || ltb 5 wire
    then (0, fail r')
    else (tag / 2 ^ 3 % 2 ^ 32, r')

unfoldable pub next : Reader → ℕ × Reader
unfolding tagged
next r = if done r then (0, r) else tagged (read_varint r)

-- `tc_pb_skip_depth`, and its loop over a group, on fuel; `none` means that the fuel ran out.
unfoldable mutual
  pub skip_depth : ℕ → Reader → ℕ → ℕ → Option Reader
  skip_depth zero r field depth = none
  skip_depth (suc fuel) r field depth =
      let group = skip_group fuel r field depth in
      if ltb 64 depth
      then some (fail r)
      else if r.wire == 0
      then some (read_varint r).1
      else if r.wire == 1
      then some (read_fixed r 8).1
      else if r.wire == 2
      then some (read_bytes r).1
      else if r.wire == 5
      then some (read_fixed r 4).1
      else if r.wire == 3
      then group
      else some (fail r)

  pub skip_group : ℕ → Reader → ℕ → ℕ → Option Reader
  skip_group zero r field depth = none
  skip_group (suc fuel) r field depth =
      let tag = next r in
      let rest : Option Reader = elim (skip_depth fuel tag.1 tag.0 (depth + 1)) [
        | none ↦ none
        | some r' ↦ skip_group fuel r' field depth
      ] in
      if done r
      then some (fail r)
      else if tag.1.wire == 4
      then some (if field == tag.0 then tag.1 else fail tag.1)
      else rest

-- Each tag takes a byte at least, and two levels of fuel.
unfoldable pub skip : Reader → ℕ → Option Reader
skip r field = skip_depth (2 * length r.input + 2) r field 0
