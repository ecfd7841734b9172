-- ===== src/Codec.antt =====
-- src/codec: how values are written to a `Writer` and read from a `Reader`.
pub mod Outcome
pub mod Vle
pub mod Values
pub mod Messages
