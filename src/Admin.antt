-- ===== src/Admin.antt =====
-- server/admin.go: the administration dashboard. What a page shows is left out; a request is what its
-- handler reads of it. bcrypt, the random source and `net/http` are parameters.
pub mod Account
pub mod Requests
pub mod Pages
pub mod Actions
pub mod Duplicates
pub mod Lifetime
pub mod Guard
pub mod Restart
