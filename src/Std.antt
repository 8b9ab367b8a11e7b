-- ===== src/Std.antt =====
-- What the sources use of the C++ standard library: strings, numbers as text, exceptions.
pub mod Strings
pub mod Optional
pub mod Outcome
pub mod Exec
pub mod Decimal
