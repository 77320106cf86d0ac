-- ===== src/Server.antt =====
-- internal/server: the requests, their conversion to queries of the database, and the answers.
pub mod Base64
pub mod Convert
pub mod Query
pub mod Json
pub mod Request
pub mod Rqlite
pub mod Parameters
pub mod Answer
pub mod RoundTrip
pub mod Leaves
pub mod Transaction
pub mod Status
pub mod Rpc
pub mod RpcEffect
pub mod Http
pub mod Serve
pub mod Guard
pub mod History
pub mod Serves
mod Tests
mod ServeTests
