-- ===== src/Config.antt =====
-- server/defaults.go, cfg.go, configure.go and addresses.go: the values that the server starts with.
pub mod Values
pub mod Flags
pub mod Merge
pub mod Relays
pub mod Startup
pub mod Files
pub mod File
pub mod Reading
pub mod Explicit
pub mod Generated
pub mod Checked
