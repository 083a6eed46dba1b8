-- ===== src/Manager.antt =====
-- server/httpconn.go: `httpRelayManager`, the table of the open sessions. The map is a list of the
-- sessions, each under its own `id`; a session that `close` has removed from it is dropped, and the
-- source's goroutines that still hold it see only its `closed` flag.
pub mod Table
pub mod Expiry
pub mod Activity
pub mod Limits
