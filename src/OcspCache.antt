-- ===== src/OcspCache.antt =====
-- internal/ocspcache: the bounded cache of OCSP answers.
pub mod Cache
pub mod Eviction
pub mod Freshness
