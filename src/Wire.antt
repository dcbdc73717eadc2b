-- ===== src/Wire.antt =====
-- The frame header that precedes each message on a TCP connection.
pub mod Uint32
pub mod Header
