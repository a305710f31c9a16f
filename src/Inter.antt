-- ===== src/Inter.antt =====
-- The package inter: events and their binary form.
pub mod Result
pub mod Event
pub mod Serializer
pub mod Build
pub mod Decode
pub mod Examples
