-- ===== src/Policy.antt =====
-- src/hotmem/policy.py: who may touch which rows, and what of a row is disclosed.
pub mod Errors
pub mod Platform
pub mod Validation
pub mod Grants
pub mod Context
pub mod Config
pub mod Attribution
pub mod Redaction
pub mod Disclosure
mod Tests
