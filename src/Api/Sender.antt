-- ===== src/Api/Sender.antt =====
-- src/api/sender.rs: the task that writes batches to the network.
pub mod Slices
pub mod Wire
pub mod Task
pub mod Traffic
pub mod Rounds
