-- ===== src/Tlsfp.antt =====
-- internal/tlsfp: the TLS ClientHello that fingerprints are taken from.
pub mod Parser
pub mod Store
pub mod Samples
