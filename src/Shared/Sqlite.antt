-- ===== src/Shared/Sqlite.antt =====
-- src/shared/sqlite: the tables that the program keeps.
pub mod Normalize
pub mod KeyTable
