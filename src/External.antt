-- ===== src/External.antt =====
-- The libraries and services that the sources call: each is a record of operations, which the
-- definitions take as a parameter, and a record of the documented behaviour that theorems assume.
pub mod Openssl
pub mod Json
pub mod Redis
pub mod Postgres
pub mod Sodium
pub mod Evp
pub mod X509
pub mod Ocsp
pub mod Files
pub mod Host
