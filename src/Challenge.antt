-- ===== src/Challenge.antt =====
-- internal/challenge: single-use nonces that a user signs. The model stands on the in-memory store.
pub mod Store
pub mod Service
pub mod Replay
pub mod Confirmation
