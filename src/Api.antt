-- ===== src/Api.antt =====
-- src/api
pub mod Http
pub mod Disposition
pub mod Accounts
pub mod Admin
pub mod Documents
pub mod Service
