-- ===== src/Pki.antt =====
-- src/pki
pub mod Certificate
pub mod Ocsp
pub mod Revocation
