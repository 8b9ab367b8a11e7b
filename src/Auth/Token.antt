-- ===== src/Auth/Token.antt =====
-- Tokens: `AuthManager::buildToken` and `AuthManager::parseToken` of src/auth/AuthManager.cpp.
pub mod Build
pub mod Parse
pub mod Split
pub mod Authentic
pub mod RoundTrip
pub mod Stable
