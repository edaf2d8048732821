-- ===== src/Oidc.antt =====
-- internal/oidc: login by signature, and the tokens that it gives.
pub mod Contract
pub mod Signer
pub mod Clients
pub mod Provider
pub mod Authcode
pub mod Tokens
pub mod Redemption
pub mod Registry
pub mod Exchange
pub mod Redeemed
