-- ===== src/Api.antt =====
-- src/api: the tasks that carry batches over a byte stream.
pub mod Io
pub mod Sender
pub mod Receiver
pub mod Handles
pub mod Link
