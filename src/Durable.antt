-- ===== src/Durable.antt =====
-- The durable stores: the same records as JSON under their keys in one bucket of a bbolt file.
pub mod Bucket
pub mod Encoding
pub mod Refinement
pub mod Challenges
pub mod Sessions
pub mod Jobs
pub mod QrSessions
