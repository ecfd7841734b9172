-- ===== src/Sync.antt =====
-- src/sync: what the tasks of a connection signal each other with.
pub mod Time
pub mod Event
