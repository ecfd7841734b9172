-- ===== src/Protocol.antt =====
-- src/protocol: what a batch on the wire carries.
pub mod Priority
pub mod CongestionControl
pub mod Qos
pub mod SeqNum
pub mod Message
