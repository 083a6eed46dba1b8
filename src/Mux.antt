-- ===== src/Mux.antt =====
-- server/snirouter.go and protomux.go: where a new connection goes.
pub mod Routes
pub mod Names
pub mod Connections
pub mod Kept
