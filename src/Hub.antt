-- ===== src/Hub.antt =====
-- server/server.go, clientChannel.go, client.go, commands.go: the connected clients, the channels
-- that they join, and the relaying of their messages. A `*Client` is the identifier that
-- `AddClient` gives it, and a `*ClientChannel` the number of its allocation; the objects are in two
-- stores. A call that the source makes under its locks is one function on the hub.
pub mod State
pub mod Client
pub mod Registry
pub mod Channel
pub mod Membership
pub mod Commands
pub mod Signaling
pub mod Routing
pub mod Receive
pub mod Delivery
pub mod Silent
pub mod Invariant
pub mod Joining
pub mod Consistency
pub mod Leaving
pub mod Emptied
pub mod Removal
pub mod Quiet
pub mod Received
pub mod Traffic
pub mod Secrecy
pub mod Blocklist
pub mod Blocking
pub mod Addressing
pub mod Screening
pub mod Authorization
pub mod Race
