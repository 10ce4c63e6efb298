-- ===== src/Delta.antt =====
-- src/hotmem/interchange/delta.py: what a delta package says, and its compare-and-swap application.
pub mod Store
pub mod Codec
pub mod Rows
pub mod Produce
pub mod Apply
pub mod Accounting
pub mod Roundtrip
pub mod Converge
pub mod Produced
pub mod Replay
pub mod Guards
pub mod Mismatch
pub mod Tests
