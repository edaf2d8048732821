-- ===== src/Qr.antt =====
-- internal/qr: one-time sessions that a phone signs after scanning a QR code.
pub mod Session
pub mod Store
pub mod Orchestrator
pub mod Handlers
pub mod Submission
pub mod Effects
pub mod Creation
pub mod Invariants
pub mod Finality
