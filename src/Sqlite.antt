-- ===== src/Sqlite.antt =====
-- internal/sqlite/sqlite.go: one query on a connection, over the C API of SQLite.
pub mod Values
pub mod Query
pub mod Results
mod Tests
