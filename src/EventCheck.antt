-- ===== src/EventCheck.antt =====
-- The package eventcheck: what is checked of an event before it is connected.
pub mod Errors
pub mod Checkers
pub mod Heavy
pub mod Admission
pub mod Examples
