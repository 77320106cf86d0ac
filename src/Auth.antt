-- ===== src/Auth.antt =====
-- internal/server/auth.go and the authorization of requests in rpc.go and rqlite.go.
pub mod Tokens
pub mod Check
pub mod Requests
pub mod Scan
pub mod Cache
pub mod Access
mod Tests
