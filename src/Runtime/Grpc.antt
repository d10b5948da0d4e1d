-- ===== src/Runtime/Grpc.antt =====
-- runtime/grpc.c: the messages, streams and routes of gRPC. nghttp2 and the sockets are not modelled:
-- the callbacks are functions of what nghttp2 hands them.
pub mod Message
pub mod Stream
pub mod Server
pub mod Frame
pub mod Packed
pub mod Chunks
pub mod Headers
pub mod Call
pub mod Statuses
pub mod Routes
pub mod Examples
use tiny_cplus.Prelude.{ℕ, ◌^◌}

-- TC_GRPC_LIMIT
abbrev pub limit : ℕ
limit = 2 ^ 22
