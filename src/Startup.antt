-- ===== src/Startup.antt =====
-- How the server starts: internal/sqlite/sqlite.go (Open, Close, SetAuthorizerRole),
-- internal/sqlitedrv, internal/db (newConnector, NewDB) and cmd/nsqlite.
pub mod Connection
pub mod Resources
pub mod Connector
pub mod Open
mod Tests
