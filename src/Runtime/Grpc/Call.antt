-- ===== src/Runtime/Grpc/Call.antt =====
-- A call from the client to a handler and back.
use tiny_cplus.Prelude.{
  ℕ, ◌≤◌, ◌≡◌, refl, sym, ap, ◌∙◌, Bool, true, false, Option, none, some, List, [], ◌∷◌, length,
  ltb, ◌==◌, if◌then◌else◌, arith,
}
use tiny_cplus.Prelude.Int.{pos, ltb_ℤ}
use tiny_cplus.Runtime.Grpc.{limit}
use tiny_cplus.Runtime.Grpc.Message.{empty_buffer, unpack, Response, respond}
use tiny_cplus.Runtime.Grpc.Stream.{
  Stream, new_stream, parse_status, trailer, request_headers, response_headers,
}
use tiny_cplus.Runtime.Grpc.Headers.{
  hear, requested, begun_response, hear-requested, hear-response, hear-trailer,
}
use tiny_cplus.Runtime.Grpc.Statuses.{trailer-parse_status, length-decimal}
use tiny_cplus.Prelude.Text.{codes, decimal}
use tiny_cplus.Runtime.Grpc.Server.{
  Memory, Route, handled, answered, find_route, routed, with_default, set_answer, answer,
  call_status, call_response,
}
use tiny_cplus.Runtime.Grpc.Frame.{IsSound}
use tiny_cplus.Runtime.Grpc.Packed.{frame, length-frame, pack-frame}
use tiny_cplus.Runtime.Grpc.Chunks.{after_chunks, joined, chunks-joined, chunks-unpack}

-- What a call comes to for the client where the handler of its route answers with this response
abbrev pub outcome : Response → Response
outcome r = if r.status == 0 then r else record { text = []; status = r.status }

if_split {ℓ} : (P : Bool → Type ℓ) (b : Bool) → (b ≡ true → P true) → (b ≡ false → P false) → P b
if_split P true h k = h refl
if_split P false h k = k refl

same_response : (r : Response) → r.status ≡ 0 → record { text = r.text; status = 0 } ≡ r
same_response r e = ap (λ n. record { text = r.text; status = n }) (sym e)

respond-outcome :
    (r : Response)
    → r.status ≤ 16
    → length r.text ≤ limit
    → (if r.status == 0
        then respond true true r.text (pos 0)
        else respond true true [] (pos r.status))
      ≡ some (outcome r)
unfolding respond
respond-outcome r h l =
    let small : ltb limit (length r.text) ≡ false = ground arith in
    let known : ltb_ℤ (pos 16) (pos r.status) ≡ false = ground arith in
    let natural : ltb_ℤ (pos r.status) (pos 0) ≡ false = ground arith in
    if_split
      (λ b.
        (if b then respond true true r.text (pos 0) else respond true true [] (pos r.status))
        ≡ some (if b then r else record { text = []; status = r.status }))
      (r.status == 0) (λ e. rw small (ap some (same_response r (ground arith))))
      (λ e. rw (natural, known) refl)

-- Memory enough for everything
abbrev pub ample : Memory
ample = record { realloc = λ n. true; calloc = true; copies = true }

set_answer-frame :
    (r : Response) (s : Stream)
    → IsSound s.outgoing
    → s.outgoing.bytes ≡ []
    → length r.text ≤ limit
    → ((set_answer (λ n. true) r s).outgoing.bytes ≡ frame r.text)
      × ((set_answer (λ n. true) r s).status ≡ r.status)
unfolding set_answer
set_answer-frame r s i e l =
    let (f, g, h) = pack-frame (λ n. true) s.outgoing r.text (λ n. refl) i e l in rw f (g, refl)

routed-handler :
    (routes : List Route) (s : Stream) (text : List ℕ) (route : Route) (r : Response)
    → s.grpc_type ≡ true
    → unpack s.incoming.bytes ≡ (0, text)
    → find_route s.path routes ≡ some route
    → route.handler text ≡ some r
    → routed routes s ≡ (0, some r)
unfolding routed handled
routed-handler routes s text route r g u f h = simp (g, u, f, h) refl

answer-frame :
    (routes : List Route) (s : Stream) (text : List ℕ) (route : Route) (r : Response)
    → s.grpc_type ≡ true
    → unpack s.incoming.bytes ≡ (0, text)
    → find_route s.path routes ≡ some route
    → route.handler text ≡ some r
    → answer ample routes s ≡ some (set_answer (λ n. true) r s)
unfolding answer answered with_default
answer-frame routes s text route r g u f h =
    ap (λ z. answered ample (with_default ample z) s) (routed-handler routes s text route r g u f h)

empty-IsSound : IsSound empty_buffer
empty-IsSound = record { within = omega arith; limited = omega arith; granted = omega arith }

call_response-heard :
    (c : Stream) (r : Response)
    → c.grpc_type ≡ true
    → c.have_status ≡ true
    → c.http_status ≡ pos 200
    → c.status ≡ r.status
    → unpack c.incoming.bytes ≡ (0, r.text)
    → call_response ample 0 c ≡ (
        if r.status == 0
        then respond true true r.text (pos 0)
        else respond true true [] (pos r.status))
unfolding call_response call_status
call_response-heard c r g h p st u = simp (g, h, p, st, u) refl

-- The trailers that end a stream
abbrev pub trailers : Option (List ℕ) → List (List ℕ × List ℕ)
trailers none = []
trailers (some text) = (codes "grpc-status", text) ∷ []

-- What the client comes to when the trailers have arrived
Heard : Response → Option Stream → Type 0
Heard r o = (d : Stream) × (o ≡ some d) × (call_response ample 0 d ≡ some (outcome r))

-- The client's side of the call
heard :
    (back : List (List ℕ)) (id : ℕ) (t : Stream) (r : Response)
    → joined back ≡ frame r.text
    → t.status ≡ r.status
    → r.status ≤ 16
    → length r.text ≤ limit
    → Heard r (
        hear (trailers (trailer true true t)) (after_chunks ample.realloc back (begun_response id)))
unfolding trailer Heard
heard back id t r j st k l =
    let c = begun_response id in
    let (b, x, y, z) =
      chunks-joined (λ n. true) back c (λ n. refl) empty-IsSound
        (omega (arith, ap length j, length-frame r.text)) in
    let u = chunks-unpack (λ n. true) back c r.text (λ n. refl) empty-IsSound refl j l in
    let known : parse_status (decimal t.status) ≡ r.status =
      trailer-parse_status t (decimal t.status) (omega (arith, st)) refl ∙ st in
    let arrived = after_chunks (λ n. true) back c in
    (
      _,
      hear-trailer (decimal t.status) arrived (ap (λ w. w.header_bytes) x)
          (length-decimal t.status (omega (arith, st))),
      call_response-heard _ r (ap (λ w. w.grpc_type) x) refl (ap (λ w. w.http_status) x) known u
          ∙ respond-outcome r k l,
    )

-- A call from end to end, where both sides have memory enough and the connection has no error. A
-- client submits the headers for a path of at most 4096 bytes and an authority of at most 511, and a
-- request within the limit; a server has a route for the path, whose handler answers with a response
-- within the limit and of a status of at most 16. The network cuts the frames of both sides into any
-- chunks. Then the server hears the headers, and answers; the client hears the headers of the
-- response, its frame and its trailers, all as the server sends them, and the call comes to the
-- handler's response, or to its status alone where that is not 0.
pub call_lem :
    (routes : List Route) (cut : List ℕ → List (List ℕ)) (id id' : ℕ)
    (authority path request : List ℕ) (route : Route) (r : Response)
    → ((bytes : List ℕ) → joined (cut bytes) ≡ bytes)
    → length authority ≤ 511
    → length path ≤ 4096
    → length request ≤ limit
    → find_route path routes ≡ some route
    → route.handler request ≡ some r
    → r.status ≤ 16
    → length r.text ≤ limit
    → (s t c d : Stream) × (hear (request_headers authority path) (new_stream id) ≡ some s)
      × (answer ample routes (after_chunks ample.realloc (cut (frame request)) s) ≡ some t)
      × (hear response_headers (new_stream id') ≡ some c)
      × (hear (trailers (trailer true true t)) (after_chunks ample.realloc (cut t.outgoing.bytes) c)
          ≡ some d)
      × (call_response ample 0 d ≡ some (outcome r))
unfolding Heard
call_lem routes cut id id' authority path request route r whole a m l f h k l' =
    let s = requested id authority path in
    let (b, p, q, x) =
      chunks-joined (λ n. true) (cut (frame request)) s (λ n. refl) empty-IsSound
        (omega (arith, ap length (whole (frame request)), length-frame request)) in
    let u =
      chunks-unpack (λ n. true) (cut (frame request)) s request (λ n. refl) empty-IsSound refl
        (whole (frame request)) l in
    let arrived : Stream = record s { incoming = b } in
    let (o, st) = set_answer-frame r arrived empty-IsSound refl l' in
    let t = set_answer (λ n. true) r arrived in
    let (d, e, g) = heard (cut t.outgoing.bytes) id' t r (whole t.outgoing.bytes ∙ o) st k l' in
    (
      s,
      t,
      begun_response id',
      d,
      hear-requested id authority path a m,
      ap (answer ample routes) p
          ∙ answer-frame routes arrived request route r refl
              (sym (ap (λ z. unpack z.incoming.bytes) p) ∙ u) f h,
      hear-response id',
      e,
      g,
    )
