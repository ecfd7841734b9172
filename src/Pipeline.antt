-- ===== src/Pipeline.antt =====
-- src/pipeline: what becomes of messages between the sender, the wire and the receiver.
pub mod Status
pub mod RingBuf
pub mod Transfer
pub mod Delivery
pub mod Rx
pub mod Tx
