-- ===== src/Core.antt =====
-- internal/core: the transport-independent domain layer.
pub mod Contract
pub mod Explain
pub mod Report
pub mod Historical
pub mod Provider
pub mod Validation
pub mod Validate
pub mod Determined
pub mod Verification
pub mod Verified
pub mod Chain
pub mod Discovery
pub mod Registry
pub mod Tally
pub mod Linked
