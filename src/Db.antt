-- ===== src/Db.antt =====
-- internal/db/db.go: queries, transactions and the idle monitor over one SQLite database.
pub mod Types
pub mod State
pub mod Classify
pub mod Exec
pub mod Query
pub mod Effect
pub mod Steps
pub mod Classified
pub mod Calls
pub mod Invariant
pub mod Isolation
pub mod Lifecycle
pub mod Monitor
pub mod Roles
pub mod RoleSteps
pub mod RoleCalls
mod RoleTests
pub mod Sample
mod Tests
