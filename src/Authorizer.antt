-- ===== src/Authorizer.antt =====
-- The authorizer callback of internal/sqlite/sqlite.c, which SQLite calls while it compiles a
-- statement, and the roles of internal/sqlite/sqlite.go.
pub mod Defs
pub mod Policy
mod Tests
