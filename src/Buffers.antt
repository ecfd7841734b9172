-- ===== src/Buffers.antt =====
-- src/buffers: where bytes are written to and read from.
pub mod Interface
pub mod Slice
pub mod BoxBuf
pub mod Bytes
