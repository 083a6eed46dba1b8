-- ===== src/Geo.antt =====
-- server/geolocation.go: where the addresses of clients are, for the dashboard.
pub mod Cache
pub mod Lookups
