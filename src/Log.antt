-- ===== src/Log.antt =====
-- The event log of src/hotmem/db.py and what src/hotmem/events.py does with it: trimming, the
-- compaction of tombstones, cursors, streaming and the deletion of a memory.
pub mod Tables
pub mod Trim
pub mod Compact
pub mod Cursor
pub mod Stream
pub mod Ledger
pub mod Append
pub mod Delete
pub mod History
mod Tests
