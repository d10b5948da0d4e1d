-- ===== src/Runtime/Grpc/Server.antt =====
-- runtime/grpc.c: the routes of `TcGrpcServer`, the answer to a request, and what a call of the
-- client comes to.
use tiny_cplus.Prelude.{
  ℕ, zero, suc, Bool, true, false, ◌&&◌, ◌||◌, not, Option, none, some, List, [], ◌∷◌, length,
  get_or, ltb, ◌==◌, if◌then◌else◌,
}
use tiny_cplus.Prelude.Text.{same}
use tiny_cplus.Prelude.Int.{ℤ, pos, negsuc}
use tiny_cplus.Runtime.Grpc.Message.{pack, unpack, Response, respond}
use tiny_cplus.Runtime.Grpc.Stream.{Stream, with_stream}

-- A handler answers a request with a response or NULL.
pub record Route : Type 0 where
  pub path : List ℕ
  pub handler : List ℕ → Option Response

unfoldable pub find_route : List ℕ → List Route → Option Route
find_route path [] = none
find_route path (r ∷ rest) = if same r.path path then some r else find_route path rest

-- What the allocator answers to the calls that need memory
pub record Memory : Type 0 where
  pub realloc : ℕ → Bool
  pub calloc : Bool
  pub copies : Bool

-- The call of the handler of a route
unfoldable pub handled : Option Route → List ℕ → ℕ × Option Response
handled none text = (12, none)
handled (some route) text = (0, route.handler text)

-- The status or the message and the response of the route, before the default one
unfoldable pub routed : List Route → Stream → ℕ × Option Response
routed routes s =
    let r = unpack s.incoming.bytes in
    let status = if s.grpc_type then r.0 else 3 in
    if status == 0 then handled (find_route s.path routes) r.1 else (status, none)

unfoldable pub with_default : Memory → ℕ × Option Response → Option Response
with_default m (status, some r) = some r
with_default m (zero, none) = respond m.calloc m.copies [] (pos 13)
with_default m (suc status, none) = respond m.calloc m.copies [] (pos (suc status))

-- The frame of the response, or an empty one where it does not fit
unfoldable pub set_answer : (ℕ → Bool) → Response → Stream → Stream
set_answer realloc r s =
    let packed = pack realloc s.outgoing r.text in
    let again = pack realloc (record packed.1 { bytes = [] }) [] in
    if packed.0
    then record s { status = 8; outgoing = again.1 }
    else record s { status = r.status; outgoing = packed.1 }

unfoldable pub answered : Memory → Option Response → Stream → Option Stream
answered m none s = none
answered m (some r) s = some (set_answer m.realloc r s)

-- `tc_grpc_answer` up to the submission of the response; none where it resets the stream
unfoldable pub answer : Memory → List Route → Stream → Option Stream
answer m routes s = answered m (with_default m (routed routes s)) s

-- `tc_grpc_frame` on a server, of the frame of a stream: whether that is reset, and the streams;
-- `ends` is whether the frame is a DATA or HEADERS frame with END_STREAM.
unfoldable pub on_frame : Memory → List Route → Bool → ℕ → List Stream → Bool × List Stream
on_frame m routes ends id streams =
    if ends
    then with_stream id (λ s. elim (answer m routes s) [ none ↦ (true, s) | some t ↦ (false, t) ])
        streams
    else (false, streams)

-- The end of `tc_grpc_server_add`, after its loop over the routes
unfoldable pub add_route :
    Option Route → Bool → List ℕ → (List ℕ → Option Response) → List Route → ℕ × List Route
add_route (some old) memory path handler routes = (2, routes)
add_route none memory path handler routes =
    if memory then (0, record { path = path; handler = handler } ∷ routes) else (8, routes)

-- `tc_grpc_server_add` of a handler that is not NULL, where `running` is what the atomic holds and
-- `memory` and `copied` whether malloc and tc_string_copy find memory: the code and the routes
unfoldable pub server_add :
    Bool → Bool → Bool → List ℕ → (List ℕ → Option Response) → List Route → ℕ × List Route
server_add running memory copied path handler routes =
    if length path == 0 || not (get_or path 0 0 == 47) || ltb 4096 (length path) || running
    then (1, routes)
    else add_route (find_route path routes) (memory && copied) path handler routes

abbrev pub is_200 : ℤ → Bool
is_200 (pos n) = n == 200
is_200 (negsuc n) = false

-- The end of `tc_grpc_call`: the status and the response, from the error of the connection and the
-- stream
unfoldable pub call_status : ℕ → Stream → ℕ
call_status error s =
    if not (error == 0)
    then error
    else if not (is_200 s.http_status)
    then 14
    else if not s.grpc_type || not s.have_status
    then 2
    else s.status

unfoldable pub call_response : Memory → ℕ → Stream → Option Response
call_response m error s =
    let status = call_status error s in
    let r = unpack s.incoming.bytes in
    if status == 0
    then if r.0 == 0
      then respond m.calloc m.copies r.1 (pos 0)
      else respond m.calloc m.copies [] (pos r.0)
    else respond m.calloc m.copies [] (pos status)
