-- ===== src/Tests.antt =====
-- The operations and the theorems at concrete inputs.
pub mod Interleaved
pub mod Whole
pub mod Estimate
pub mod Control
pub mod System
pub mod Attached
pub mod Handshake
pub mod Programs
pub mod Streams
pub mod Takeover
pub mod Owners
pub mod Roles
pub mod Memory
pub mod Benchmarks
pub mod Mains
pub mod Latency
