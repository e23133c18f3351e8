-- ===== src/Server.antt =====
-- crates/conflux-server: one experiment's rounds, and the services around them.
pub mod Error
pub mod Health
pub mod History
pub mod Verdict
pub mod Loop
pub mod Auth
pub mod AdminAuth
pub mod State
pub mod Dispatcher
pub mod Admission
pub mod Round
