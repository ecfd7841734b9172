-- ===== src/Collections.antt =====
-- src/collections
pub mod SingleOrVec
