-- ===== src/Core/Robust.antt =====
-- crates/conflux-core/src/robust.rs: the methods that choose which whole updates to keep.
pub mod Filters
pub mod Numbers
pub mod Scores
pub mod Selection
pub mod Krum
pub mod Faba
pub mod Bulyan
pub mod Spectral
