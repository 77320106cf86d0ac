-- ===== src/Util.antt =====
-- internal/util: numbers and HTTP helpers.
pub mod Numbers
pub mod Http
mod Tests
