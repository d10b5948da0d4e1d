-- ===== src/Runtime/Protobuf.antt =====
-- runtime/protobuf.c: writing and reading the Protobuf wire format.
pub mod Writer
pub mod Reader
pub mod Varint
pub mod Progress
pub mod Skip
pub mod Append
pub mod RoundTrip
pub mod Written
pub mod Utf8
pub mod Examples
use tiny_cplus.Prelude.{ℕ, ◌^◌}

-- TC_PB_LIMIT
abbrev pub limit : ℕ
limit = 2 ^ 26
