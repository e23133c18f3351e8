-- ===== src/Tests.antt =====
-- The theorems at concrete inputs: in World a small deployment with in-memory backends, and in the
-- other files runs on it.
pub mod World
pub mod Rounds
pub mod Scored
pub mod Clients
pub mod Parts
pub mod Admissions
pub mod Methods
pub mod Settings
pub mod Profiles
pub mod Trusted
