-- ===== src/Privacy.antt =====
-- crates/conflux-privacy/src/lib.rs: the privacy accountant's records and the epsilon that they add
-- up to.
pub mod Rdp
pub mod Accountant
