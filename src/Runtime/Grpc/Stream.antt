-- ===== src/Runtime/Grpc/Stream.antt =====
-- runtime/grpc.c: `TcGrpcStream` and the callbacks of nghttp2 for the headers and the data of a
-- stream.
use tiny_cplus.Prelude.{
  ℕ, ◌+◌, ◌-◌, ◌*◌, Bool, true, false, ◌&&◌, ◌||◌, not, Option, none, some, List, [], ◌∷◌, length,
  take, drop, get_or, ltb, leb, ◌==◌, min, if◌then◌else◌,
}
use tiny_cplus.Prelude.Text.{codes, same, decimal}
use tiny_cplus.Prelude.Int.{ℤ, pos, negsuc}
use tiny_cplus.Machine.{add_size}
use tiny_cplus.Runtime.Grpc.Message.{Buffer, empty_buffer, buffer_add}

pub record Stream : Type 0 where
  pub id : ℕ
  pub path : List ℕ
  pub incoming : Buffer
  pub outgoing : Buffer
  pub sent : ℕ
  pub header_bytes : ℕ
  pub status : ℕ
  pub have_status : Bool
  pub http_status : ℤ
  pub grpc_type : Bool

-- `calloc` clears a stream.
abbrev pub new_stream : ℕ → Stream
new_stream id = record {
  id = id;
  path = [];
  incoming = empty_buffer;
  outgoing = empty_buffer;
  sent = 0;
  header_bytes = 0;
  status = 0;
  have_status = false;
  http_status = pos 0;
  grpc_type = false;
}

abbrev pub difference : ℕ → ℕ → ℤ
difference a b = if leb b a then pos (a - b) else negsuc (b - a - 1)

-- `(value[0] - '0') * 100 + (value[1] - '0') * 10 + value[2] - '0'`
unfoldable pub http_code : List ℕ → ℤ
http_code value =
    difference (get_or value 0 0 * 100 + get_or value 1 0 * 10 + get_or value 2 0) (48 * 111)

unfoldable pub is_grpc : List ℕ → Bool
is_grpc value =
    leb 16 (length value)
    && same (take 16 value) (codes "application/grpc")
    && (length value == 16 || get_or value 16 0 == 43 || get_or value 16 0 == 59)

-- The loop over the digits of grpc-status from a status on; none at a byte that is no digit
unfoldable pub digits_of : ℕ → List ℕ → Option ℕ
digits_of status [] = some status
digits_of status (c ∷ cs) =
    let rest = digits_of (status * 10 + (c - 48)) cs in if ltb c 48 || ltb 57 c then none else rest

unfoldable pub parse_status : List ℕ → ℕ
parse_status value =
    if length value == 0 || ltb 2 (length value)
    then 2
    else elim (digits_of 0 value) [ none ↦ 2 | some n ↦ if ltb 16 n then 2 else n ]

-- `tc_grpc_header` on the stream that it found: whether it fails, and the stream; `copied` is whether
-- tc_string_copy finds memory
unfoldable pub on_header : Bool → List ℕ → List ℕ → Stream → Bool × Stream
on_header copied name value old =
    let s : Stream = record old {
      header_bytes = add_size old.header_bytes (length name + length value);
    } in
    if ltb 16384 s.header_bytes
    then (true, s)
    else if same name (codes ":path")
    then if ltb 4096 (length value)
      then (true, s)
      else (false, record s { path = if copied then value else [] })
    else if same name (codes ":status")
    then (
      false,
      record s { http_status = if length value == 3 then http_code value else s.http_status },
    )
    else if same name (codes "content-type")
    then (false, record s { grpc_type = is_grpc value })
    else if same name (codes "grpc-status")
    then (false, record s { status = parse_status value; have_status = true })
    else (false, s)

-- `tc_grpc_data` on the stream that it found: whether it resets the stream, and the stream
unfoldable pub on_data : (ℕ → Bool) → List ℕ → Stream → Bool × Stream
on_data realloc text s =
    let r = buffer_add realloc s.incoming text in
    if r.0
    then (true, record s { incoming = r.1; status = 8 })
    else (false, record s { incoming = r.1 })

-- The headers of the request that `tc_grpc_call` submits, and those of the response that
-- `tc_grpc_answer` submits
abbrev pub request_headers : List ℕ → List ℕ → List (List ℕ × List ℕ)
request_headers authority path =
    (codes ":method", codes "POST")
    ∷ (codes ":scheme", codes "http")
    ∷ (codes ":authority", authority)
    ∷ (codes ":path", path)
    ∷ (codes "content-type", codes "application/grpc")
    ∷ (codes "te", codes "trailers")
    ∷ []

abbrev pub response_headers : List (List ℕ × List ℕ)
response_headers =
    (codes ":status", codes "200") ∷ (codes "content-type", codes "application/grpc") ∷ []

-- `tc_grpc_read_data` for so many bytes: the bytes, whether they are the last, and the stream
unfoldable pub read_data : ℕ → Stream → List ℕ × Bool × Stream
read_data capacity s =
    let n = min (length s.outgoing.bytes - s.sent) capacity in
    (
      take n (drop s.sent s.outgoing.bytes),
      s.sent + n == length s.outgoing.bytes,
      record s { sent = s.sent + n },
    )

-- The trailer grpc-status that a server sends after the last bytes
unfoldable pub trailer : Bool → Bool → Stream → Option (List ℕ)
trailer server last s = if last && server then some (decimal s.status) else none

-- `tc_grpc_stream` of the streams of a connection
unfoldable pub find_stream : ℕ → List Stream → Option Stream
find_stream id [] = none
find_stream id (s ∷ rest) = if s.id == id then some s else find_stream id rest

-- A callback on the first stream of that id, where there is one
unfoldable pub with_stream : ℕ → (Stream → Bool × Stream) → List Stream → Bool × List Stream
with_stream id act [] = (false, [])
with_stream id act (s ∷ rest) =
    let r = with_stream id act rest in
    if s.id == id then ((act s).0, (act s).1 ∷ rest) else (r.0, s ∷ r.1)

-- `tc_grpc_begin`: whether it fails, and the streams; `request` is whether a server gets the HEADERS
-- frame of a request, and `memory` whether calloc finds memory.
unfoldable pub begin_stream : Bool → Bool → ℕ → List Stream → Bool × List Stream
begin_stream request memory id streams =
    if not request
    then (false, streams)
    else if memory
    then (false, new_stream id ∷ streams)
    else (true, streams)

-- `tc_grpc_closed` on a server
unfoldable pub close_stream : ℕ → List Stream → List Stream
close_stream id [] = []
close_stream id (s ∷ rest) =
    let left = close_stream id rest in if s.id == id then rest else s ∷ left
