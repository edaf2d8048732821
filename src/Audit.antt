-- ===== src/Audit.antt =====
-- internal/audit: the hash-chained journal.
pub mod Log
pub mod Chain
pub mod Pinning
