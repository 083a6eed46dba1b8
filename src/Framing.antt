-- ===== src/Framing.antt =====
-- server/messageconn.go: messages on a connection.
pub mod Raw
pub mod RoundTrip
