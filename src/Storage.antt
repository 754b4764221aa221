-- ===== src/Storage.antt =====
-- src/storage: the history in the database.
pub mod TickWriter
pub mod History
