-- ===== src/Idempotency.antt =====
-- internal/idempotency: the bounded cache that runs the work of a key once.
pub mod Cache
pub mod Flight
pub mod Sections
pub mod Once
