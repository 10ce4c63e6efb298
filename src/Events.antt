-- ===== src/Events.antt =====
-- src/hotmem/events.py: the event log's replay into another store.
pub mod Types
pub mod Header
pub mod Image
pub mod State
pub mod Move
pub mod Plan
pub mod Target
pub mod Apply
pub mod Candidates
pub mod Range
mod Tests
