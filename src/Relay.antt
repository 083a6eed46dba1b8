-- ===== src/Relay.antt =====
-- server/httprelay.go and httprelay_v2.go: the requests of a client that speaks HTTP. A request is
-- what its handler reads of it; a reply is its status with the fields of its body. `net/http`, `mime`
-- and `encoding/json` are parameters. The clock is read once for a request, and once in each round of
-- a stream.
pub mod Request
pub mod Post
pub mod Poll
pub mod Routes
pub mod Batch
pub mod Retry
pub mod Tokens
pub mod Posted
pub mod Calls
pub mod Polling
pub mod Fetch
pub mod Stream
pub mod Follows
pub mod Streaming
pub mod Streams
pub mod Events
pub mod Paths
pub mod Create
pub mod Opened
pub mod Creation
