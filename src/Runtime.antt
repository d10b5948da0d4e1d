-- ===== src/Runtime.antt =====
-- runtime/: the library that compiled programs are linked with.
pub mod Channel
pub mod Gap
pub mod Protobuf
pub mod Semaphore
pub mod Future
pub mod Scheduler
pub mod Atomic
pub mod Grpc
pub mod Tui
pub mod Library
pub mod Pool
