-- ===== src/Inspectors.antt =====
-- src/hotmem/inspectors: the readers of foreign files.
pub mod Varint
