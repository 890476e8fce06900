-- ===== src/Programs.antt =====
-- Programs over the library (examples): their loops, over the operations of the sockets that they
-- call.
pub mod Forward
pub mod Receive
pub mod Receptions
pub mod ForwardMt
pub mod Send
pub mod FilePcap
pub mod Meter
use rust_nethuns.Common.{ℕ, ◌+◌, ◌%◌, ◌^◌}

-- `fetch_add(1)` of an `AtomicU64`, and `+= 1` of a `u64` in a release build.
abbrev pub inc_u64 : ℕ → ℕ
inc_u64 n = (n + 1) % 2 ^ 64
