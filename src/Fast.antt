-- ===== src/Fast.antt =====
-- utils/fast: the packed array of small numbers and the byte buffer of the event serializer.
pub mod BitArray
pub mod Buffer
pub mod Examples
