-- ===== src/Entrypoint.antt =====
-- cmd/entrypoint/main.go: what the container starts, with Litestream or without.
pub mod Env
pub mod Shell
pub mod Plan
pub mod Words
pub mod Start
pub mod Credentials
mod Tests
