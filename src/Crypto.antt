-- ===== src/Crypto.antt =====
-- src/crypto
pub mod Signer
