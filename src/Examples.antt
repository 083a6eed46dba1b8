-- ===== src/Examples.antt =====
-- The theorems applied to small concrete sessions, tables and hubs.
mod Sessions
mod Managers
mod Hubs
mod Channels
mod Requests
mod Framings
mod Streams
mod Accounts
mod Configurations
