-- ===== src/Config.antt =====
-- internal/config/config.go and internal/validate: the settings of nsqlited and their checks.
pub mod Regex
pub mod Decimal
pub mod Validate
pub mod Durations
pub mod Settings
pub mod Parse
pub mod Args
pub mod Access
pub mod Sample
mod Tests
