-- ===== src/Persistence.antt =====
-- src/persistence: the clients of Redis and PostgreSQL and the repositories over them.
pub mod RedisClient
pub mod Sessions
pub mod PostgreSqlClient
pub mod Users
pub mod Documents
pub mod Shared
