-- ===== src/Inter/Serializer.antt =====
-- inter/event_serializer.go: the binary form of an event.
pub mod Compact
pub mod Marshal
pub mod Unmarshal
pub mod Malleable
