-- ===== src/Threads.antt =====
-- internal/db/db.go with calls that run at once, an access to the shared state at a time.
pub mod Program
pub mod Exec
pub mod Calls
pub mod Discipline
pub mod ExecObeys
pub mod InsideObeys
pub mod OutsideObeys
pub mod CallsObey
pub mod System
pub mod Invariant
pub mod Reachable
pub mod Safety
pub mod Solo
pub mod SoloExec
pub mod SoloCalls
pub mod Alone
pub mod Schedule
mod Tests
