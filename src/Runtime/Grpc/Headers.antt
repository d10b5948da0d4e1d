-- ===== src/Runtime/Grpc/Headers.antt =====
-- Headers that arrive for a stream, one after another.
use tiny_cplus.Prelude.{
  ℕ, ◌+◌, ◌≤◌, ◌≡◌, refl, true, false, Option, none, some, List, [], ◌∷◌, length, drop, ltb,
  if◌then◌else◌, arith,
}
use tiny_cplus.Prelude.Text.{codes, same}
use tiny_cplus.Prelude.Int.{pos}
use tiny_cplus.Machine.{add_size, add_size-eq}
use tiny_cplus.Runtime.Grpc.Stream.{
  Stream, new_stream, is_grpc, http_code, parse_status, on_header, request_headers,
  response_headers,
}

-- The stream behind these headers, or none where one of them is refused
unfoldable pub hear : List (List ℕ × List ℕ) → Stream → Option Stream
hear [] s = some s
hear ((name, value) ∷ hs) s =
    let r = on_header true name value s in let rest = hear hs r.1 in if r.0 then none else rest

hear_one :
    (name value : List ℕ) (hs : List (List ℕ × List ℕ)) (s t : Stream) {o : Option Stream}
    → on_header true name value s ≡ (false, t)
    → hear hs t ≡ o
    → hear ((name, value) ∷ hs) s ≡ o
unfolding hear
hear_one name value hs s t e h = rw e h

module _ (s : Stream) where
  on_header-path :
      (value : List ℕ)
      → s.header_bytes + (5 + length value) ≤ 16384
      → length value ≤ 4096
      → on_header true (codes ":path") value s
        ≡ (false, record s { header_bytes = s.header_bytes + (5 + length value); path = value })
  unfolding on_header same
  on_header-path value h k =
      let e = add_size-eq s.header_bytes (5 + length value) (omega arith) in
      let f : ltb 16384 (s.header_bytes + (5 + length value)) ≡ false = ground arith in
      let g : ltb 4096 (length value) ≡ false = ground arith in rw (e, f, g) refl

  on_header-authority :
      (value : List ℕ)
      → s.header_bytes + (10 + length value) ≤ 16384
      → on_header true (codes ":authority") value s
        ≡ (false, record s { header_bytes = s.header_bytes + (10 + length value) })
  unfolding on_header same
  on_header-authority value h =
      let e = add_size-eq s.header_bytes (10 + length value) (omega arith) in
      let f : ltb 16384 (s.header_bytes + (10 + length value)) ≡ false = ground arith in
      rw (e, f) refl

  on_header-content_type :
      s.header_bytes + 28 ≤ 16384
      → on_header true (codes "content-type") (codes "application/grpc") s
        ≡ (false, record s { header_bytes = s.header_bytes + 28; grpc_type = true })
  unfolding on_header same is_grpc
  on_header-content_type h =
      let e = add_size-eq s.header_bytes 28 (omega arith) in
      let f : ltb 16384 (s.header_bytes + 28) ≡ false = ground arith in rw (e, f) refl

  on_header-te :
      s.header_bytes + 10 ≤ 16384
      → on_header true (codes "te") (codes "trailers") s
        ≡ (false, record s { header_bytes = s.header_bytes + 10 })
  unfolding on_header same
  on_header-te h =
      let e = add_size-eq s.header_bytes 10 (omega arith) in
      let f : ltb 16384 (s.header_bytes + 10) ≡ false = ground arith in rw (e, f) refl

  on_header-grpc_status :
      (value : List ℕ)
      → s.header_bytes + (11 + length value) ≤ 16384
      → on_header true (codes "grpc-status") value s ≡ (
        false,
        record s {
          header_bytes = s.header_bytes + (11 + length value);
          status = parse_status value;
          have_status = true;
        },
      )
  unfolding on_header same
  on_header-grpc_status value h =
      let e = add_size-eq s.header_bytes (11 + length value) (omega arith) in
      let f : ltb 16384 (s.header_bytes + (11 + length value)) ≡ false = ground arith in
      rw (e, f) refl

-- The stream of a server that has heard a request, and the stream of a client that has heard the
-- headers of a response
abbrev pub requested : ℕ → List ℕ → List ℕ → Stream
requested id authority path = record (new_stream id) {
  header_bytes = 22 + (10 + length authority) + (5 + length path) + 28 + 10;
  path = path;
  grpc_type = true;
}

abbrev pub begun_response : ℕ → Stream
begun_response id = record (new_stream id) {
  header_bytes = 38;
  http_status = pos 200;
  grpc_type = true;
}

pub hear-requested :
    (id : ℕ) (authority path : List ℕ)
    → length authority ≤ 511
    → length path ≤ 4096
    → hear (request_headers authority path) (new_stream id) ≡ some (requested id authority path)
unfolding on_header same add_size hear
hear-requested id authority path h k =
    let s : Stream = record (new_stream id) { header_bytes = 22 } in
    let t : Stream = record s { header_bytes = 22 + (10 + length authority) } in
    let u : Stream = record t {
      header_bytes = 22 + (10 + length authority) + (5 + length path);
      path = path;
    } in
    let v : Stream = record u {
      header_bytes = 22 + (10 + length authority) + (5 + length path) + 28;
      grpc_type = true;
    } in
    hear_one (codes ":authority") authority (drop 3 (request_headers authority path)) s t
      (on_header-authority s authority (omega arith))
      (hear_one (codes ":path") path (drop 4 (request_headers authority path)) t u
        (on_header-path t path (omega arith) k)
        (hear_one (codes "content-type") (codes "application/grpc")
          (drop 5 (request_headers authority path)) u v (on_header-content_type u (omega arith))
          (hear_one (codes "te") (codes "trailers") [] v (requested id authority path)
            (on_header-te v (omega arith)) refl)))

pub hear-response : (id : ℕ) → hear response_headers (new_stream id) ≡ some (begun_response id)
unfolding hear on_header same is_grpc http_code add_size
hear-response id = refl

pub hear-trailer :
    (value : List ℕ) (s : Stream)
    → s.header_bytes ≡ 38
    → length value ≤ 2
    → hear ((codes "grpc-status", value) ∷ []) s
      ≡ some (record s {
        header_bytes = s.header_bytes + (11 + length value);
        status = parse_status value;
        have_status = true;
      })
unfolding hear
hear-trailer value s e h =
    hear_one (codes "grpc-status") value [] s _ (on_header-grpc_status s value (omega arith)) refl
