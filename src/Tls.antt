-- ===== src/Tls.antt =====
-- src/tls
pub mod OqsProvider
