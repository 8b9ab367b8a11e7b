-- ===== src/Tests.antt =====
-- The theorems at concrete inputs, over stand-ins for the libraries and services.
mod Fakes
mod Std
mod Tokens
mod Sessions
mod Accounts
mod Documents
mod Endpoints
mod Startup
mod Submitted
mod Revocation
mod Service
mod Isolation
