-- ===== src/Util.antt =====
-- src/util.
pub mod Serialize
