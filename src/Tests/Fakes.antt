-- ===== src/Tests/Fakes.antt =====
-- Stand-ins that behave as the libraries and services document.
pub mod Crypto
pub mod Text
pub mod Stores
pub mod Archive
pub mod Keys
pub mod Machine
pub mod Shared
pub mod SharedUsers
pub mod SharedDocuments
pub mod SharedLaws
