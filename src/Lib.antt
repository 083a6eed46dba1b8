-- ===== src/Lib.antt =====
-- The relay server of NVDA Remote (Go), which passes messages between computers that are controlled
-- (slaves) and computers that control them (masters): what its sessions, its tables and its channels
-- do, and what that guarantees.
--
-- The parts, and how they work together:
-- * A client that speaks HTTP has a session (server/httpconn.go, `httpSession`). It posts numbered
--   messages, which the server reads in order, and it fetches the messages that the server stores
--   for it, until it acknowledges them. Session models it: State the record, Receive `acceptInbound`
--   and `ReadMessage`, Send `enqueueOutbound`, `acknowledgeOutbound` and `messagesAfter`, Poll the
--   rest. History lists the calls that can be made on a session, in the order in which the mutex
--   serves them, and what each of them stores, accepts and hands over.
-- * The sessions are in a table (server/httpconn.go, `httpRelayManager`), which limits how many there
--   are, and drops those whose client has been silent. Manager models it: Table has the operations.
-- * The requests of such a client go through the handlers of server/httprelay.go and httprelay_v2.go,
--   which find the session, check the token and make the calls. Relay models them: Request what is read
--   of a request and what is replied, Create `handleHTTPCreateSession` of both versions with the client
--   that reads from the session (server/connection.go `newHTTPClient`), Post `handleHTTPSessionPost`,
--   Poll `handleHTTPSessionPoll`, Stream `handleHTTPSessionStream`, Routes `handleHTTPSessionMessages`
--   and `handleHTTPSessionDelete`, Paths the normalization of the relay's path and `handleHTTPSession`
--   of both versions.
-- * A client that speaks the historic protocol sends messages that end in a newline (server/messageconn.go).
--   Framing models `ReadMessage` and `WriteMessage`. On a shared port the server name of the TLS
--   handshake (server/snirouter.go) and then the first byte (server/protomux.go) say where a connection
--   goes. Mux models this: Routes the rules of `SNIRouteList` and `peekServerName`, Connections
--   `route`, `classify` and the end of the two listeners.
-- * The clients, whichever way they connect, are in the tables of server/server.go; a client joins one
--   channel (server/clientChannel.go), and what it sends goes to the members of that channel. Hub
--   models this: State has the messages (server/data.go), the clients (server/client.go), the channels
--   and the tables, Client, Registry, Channel and Membership the operations on them, Commands and
--   Receive what becomes of a message (server/commands.go, genKey.go, server.go `MessageReceived`),
--   Signaling and Routing the signaling of screen sharing (server/screenshare.go), which goes to one
--   member instead, Blocklist the machines that the administrator refused. Traffic has the events in
--   the life of the hub.
-- * The administrator has a dashboard (server/admin.go), where the password is defined first, and which
--   can cut off and block clients of the hub. Admin models it: Account the password and the sessions,
--   Requests what is read of a request and the guard of the actions, Pages the setup, the login and the
--   logout, Actions blocking and unblocking, Duplicates `markDuplicates`. The dashboard shows where an
--   address is; Geo models the cache of server/geolocation.go.
-- * The server starts from a command line and a file. Config models what becomes of them: Values the
--   fields of `Cfg` and their defaults (server/cfg.go, defaults.go), Flags `CmdGet` and `CmdSet`, Relays
--   the checks of server/configure.go and addresses.go, Startup the log level and the message of the day,
--   Files the paths and files of server/file.go, File the search, the reading and the generation of the
--   configuration file (server/cfg.go), whose panic in `fileExists` is `none`.
-- * The dashboard also keeps a history. History models what server/history.go makes of the connections and
--   samples that its database has: Hours the metrics, `buildHistoryHours`, Days `dayData`; and Durations
--   the text of a duration (server/history_pages.go).
-- * Prelude has the helpers that these share: tests, lists, texts, Go maps and integers. Examples
--   applies the theorems to concrete sessions, tables and hubs.
--
-- How the state corresponds. A method that runs under a mutex is one function, and a method that
-- fails returns its error beside the state. Times are nanoseconds, given to each call that reads the
-- clock; the zero `time.Time` is `none`. The sequence numbers are `uint64` and wrap at 2^64. A limit
-- that the source tests for being positive is 0 when it is not. A Go map is a list of its keys, in the
-- order in which a loop meets them; pointers to clients and channels are numbers that index a store.
-- The text that a client is sent is appended to its list `sent`. A write to a nil map sets the flag
-- `panicked`.
--
-- Bounds: the loop that draws an identifier runs three times, as in the source, and the loop of
-- `gen_key` twenty times. The loop of `enqueueOutbound` ends its waits as the environment says: it runs
-- over the list of the wakes (what the other goroutines left, the time, the case of the `select`). The
-- loop of `handleHTTPSessionStream`, which runs until its client goes, is over a list of rounds: for
-- each, the calls of the other goroutines, how many writes succeed, and how the wait ends. Histories of
-- one session are limited to fewer than 2^64 calls where a number could wrap.
--
-- Parameters: encoding/json (`Json`, `Sse`), base64, SHA-256 and net.SplitHostPort (`Platform`, `Net`),
-- HMAC and strconv (`TurnPlatform`), what the handlers read of a request by net/http, mime and
-- encoding/json (`Http`, `Creation`, `FormText`, `Folding`), bcrypt and hexadecimal digits (`Crypt`), the
-- lower case of a string and the parser of crypto/tls (`Names`), the disk of os and path/filepath (`Os`),
-- the encoding of a configuration (`Codec`), `float64` (`Floats`), the random source (`Draw`, and the keys
-- of `gen_key`). What other goroutines do to a session while a poll waits is a function of the session,
-- any at all.
--
-- Not modelled: sockets, TLS and WebSocket (server/connection.go, listen.go, websocket.go), with the
-- deadlines of a connection and the relaying of one that is forwarded (server/snirouter.go `forward`);
-- what the pages show, the snapshot of the dashboard and its measures of the machine (server/admin.go),
-- and the registration of routes with net/http; the statements of the history database,
-- with the copy that it keeps of the block list, the periods of the calendar (server/history.go) and the
-- pages (history_pages.go); what the configuration logs
-- (server/cfg.go) and the parsing of the flags; the request to the
-- geolocation service; logs and signals. The capacity of a client's channel `sd`, on which a
-- sender may block, is left out; the lifetime of TURN credentials is taken to fit in a `time.Duration`.
mod Prelude
pub mod Session
pub mod Manager
pub mod Hub
pub mod Relay
pub mod Framing
pub mod Config
pub mod Admin
pub mod Geo
pub mod History
pub mod Mux
mod Examples
