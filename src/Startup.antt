-- ===== src/Startup.antt =====
-- src/main.cpp: the checks in front of the listener, in their order, and what the server starts with.
pub mod Secrets
pub mod KeyFile
pub mod Config
pub mod Main
pub mod Steps
pub mod Checks
pub mod Reached
pub mod Generated
