-- ===== src/Runtime/Grpc/Examples.antt =====
-- A call of a route that answers "hi" to anything.
use tiny_cplus.Prelude.{
  ℕ, ◌≤◌, ◌≡◌, refl, ◌↔◌, true, false, some, List, [], ◌∷◌, ◌++◌, append-nil, take, drop,
  take-append-drop, ap, ◌∙◌, length, arith,
}
use tiny_cplus.Prelude.Text.{codes, same}
use tiny_cplus.Prelude.Int.{pos}
use tiny_cplus.Machine.{add_size}
use tiny_cplus.Runtime.Grpc.{limit}
use tiny_cplus.Runtime.Grpc.Message.{empty_buffer, header, unpack, Response}
use tiny_cplus.Runtime.Grpc.Stream.{
  Stream, new_stream, digits_of, parse_status, on_header, find_stream, begin_stream, close_stream,
  http_code, is_grpc, trailer, request_headers, response_headers,
}
use tiny_cplus.Runtime.Grpc.Server.{Route, find_route, answer, call_response, server_add}
use tiny_cplus.Runtime.Grpc.Frame.{IsSound}
use tiny_cplus.Runtime.Grpc.Packed.{frame, unpack_lem}
use tiny_cplus.Runtime.Grpc.Chunks.{after_chunks, joined, chunks-unpack}
use tiny_cplus.Runtime.Grpc.Call.{ample, trailers, call_lem}
use tiny_cplus.Runtime.Grpc.Headers.{hear}
use tiny_cplus.Runtime.Grpc.Routes.{Routed, server_add-Routed}

abbrev request : List ℕ
request = codes "you"

abbrev greeting : Response
greeting = record { text = codes "hi"; status = 0 }

abbrev greet : Route
greet = record { path = codes "/greet"; handler = λ text. some greeting }

abbrev asked : Stream
asked = record (new_stream 1) { path = codes "/greet"; grpc_type = true }

abbrev asking : Stream
asking = record (new_stream 1) { grpc_type = true; have_status = true; http_status = pos 200 }

abbrev questions : List (List ℕ)
questions = (0 ∷ 0 ∷ []) ∷ [] ∷ (0 ∷ 0 ∷ 3 ∷ codes "yo") ∷ codes "u" ∷ []

abbrev answers : List (List ℕ)
answers = (0 ∷ 0 ∷ 0 ∷ 0 ∷ 2 ∷ codes "hi") ∷ []

nothing-IsSound : IsSound empty_buffer
nothing-IsSound = record { within = omega arith; limited = omega arith; granted = omega arith }

-- The first seven bytes, and what is left
abbrev in_two : List ℕ → List (List ℕ)
in_two bytes = take 7 bytes ∷ [] ∷ drop 7 bytes ∷ []

in_two-joined : (bytes : List ℕ) → joined (in_two bytes) ≡ bytes
in_two-joined bytes =
    ap (λ z. take 7 bytes ++ z) (append-nil (drop 7 bytes)) ∙ take-append-drop 7 bytes

call_lem_example :
    (s t c d : Stream) × (hear
        (request_headers (codes "localhost:80") (codes "/greet"))
        (new_stream 1)
      ≡ some s)
    × (answer ample (greet ∷ []) (after_chunks ample.realloc (in_two (frame request)) s) ≡ some t)
    × (hear response_headers (new_stream 1) ≡ some c)
    × (hear
          (trailers (trailer true true t))
          (after_chunks ample.realloc (in_two t.outgoing.bytes) c)
        ≡ some d)
    × (call_response ample 0 d ≡ some greeting)
unfolding find_route same
call_lem_example =
    call_lem (greet ∷ []) in_two 1 1 (codes "localhost:80") (codes "/greet") request greet greeting
      in_two-joined (omega arith) (omega arith) (omega arith) refl refl (omega arith) (omega arith)

chunks-unpack_example :
    unpack (after_chunks ample.realloc questions asked).incoming.bytes ≡ (0, request)
unfolding header
chunks-unpack_example =
    chunks-unpack ample.realloc questions asked request (λ n. refl) nothing-IsSound refl refl
      (omega arith)

unpack_lem_example :
    (unpack (joined answers) ≡ (0, codes "hi"))
    ↔ ((joined answers ≡ frame (codes "hi")) × (length (codes "hi") ≤ limit))
unpack_lem_example = unpack_lem (joined answers) (codes "hi") (
  omega arith,
  (omega arith, (omega arith, (omega arith, (omega arith, (omega arith, (omega arith, tt)))))),
)

server_add-Routed_example :
    Routed false true true
      (codes "/other")
      greet.handler
      (greet ∷ [])
      (server_add false true true (codes "/other") greet.handler (greet ∷ []))
unfolding find_route
server_add-Routed_example =
    server_add-Routed false true true (codes "/other") greet.handler (greet ∷ []) (refl, tt)

test_status : parse_status (codes "17") ≡ 2
unfolding parse_status digits_of
test_status = refl

test_http : http_code (codes "200") ≡ pos 200
unfolding http_code
test_http = refl

test_is_grpc : is_grpc (codes "application/grpc+proto") ≡ true
unfolding is_grpc same
test_is_grpc = refl

test_header : (on_header true (codes "grpc-status") (codes "5") asking).1.status ≡ 5
unfolding on_header same parse_status digits_of add_size
test_header = refl

test_closed : close_stream 1 (asked ∷ asking ∷ []) ≡ asking ∷ []
unfolding close_stream
test_closed = refl

test_begun : find_stream 7 (begin_stream true true 7 (asked ∷ [])).1 ≡ some (new_stream 7)
unfolding find_stream begin_stream
test_begun = refl
