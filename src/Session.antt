-- ===== src/Session.antt =====
-- server/httpconn.go: one HTTP relay session, the state behind the `MessageConn` of a client that
-- speaks HTTP. Times are nanoseconds, an argument `now` of each call that reads the clock; the zero
-- `time.Time` of the write deadline is `none`. Every method runs under the session's mutex, so it
-- is one function on the record. The channel `drained` is a number that grows when the source
-- closes the channel and makes a new one; `notify` tells whether its one-place buffer is full.
pub mod State
pub mod Receive
pub mod Send
pub mod Poll
pub mod Backlog
pub mod History
pub mod Invariant
pub mod Stream
pub mod Delivery
pub mod Posting
pub mod Closing
