-- ===== src/Auth.antt =====
-- src/auth/AuthManager.cpp: tokens and the authentication manager.
pub mod Base64Url
pub mod Token
pub mod World
pub mod SessionId
pub mod Manager
