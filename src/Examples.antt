-- ===== src/Examples.antt =====
-- The theorems at concrete inputs, component by component.
mod Core
mod Service
mod Multisign
mod Jobs
mod Challenge
mod OcspCache
mod Audit
mod Idempotency
mod Durable
mod Qr
mod Oidc
