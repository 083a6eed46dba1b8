-- ===== src/Manager/Activity.antt =====
-- The calls of the server on a session, and the time of the last activity: server/httpconn.go.
use nvda_remote_go.Prelude.{
  ℕ, ◌+◌, ◌<◌, ◌≡◌, refl, ◌∙◌, Bytes, Bool, true, false, none, some, List, [], ◌∷◌, ◌&&◌, arith,
}
use nvda_remote_go.Session.State.{Session}
use nvda_remote_go.Session.History.{Call, reads, enqueues, ends_poll, sets_deadline, step, run}
use nvda_remote_go.Manager.Table.{Manager, find_session, is_expired, get}
use nvda_remote_go.Manager.Expiry.{Distinct, get_lem}

-- The calls that the server makes by itself for a client that is gone: what `client.listen` and
-- its writer do with the connection.
abbrev pub is_server_call : Call → Bool
is_server_call reads = true
is_server_call (enqueues now p) = true
is_server_call (sets_deadline d) = true
is_server_call ends_poll = true
is_server_call _ = false

abbrev pub all_server_calls : List Call → Bool
all_server_calls [] = true
all_server_calls (c ∷ cs) = is_server_call c && all_server_calls cs

step-last_activity :
    (s : Session) (c : Call)
    → is_server_call c ≡ true
    → ((step s c).last_activity ≡ s.last_activity) × ((step s c).closed ≡ s.closed)
unfolding step
step-last_activity s reads h = ground arith
step-last_activity s (enqueues now p) h = ground arith
step-last_activity s _ h = ground arith

run-last_activity :
    (s : Session) (cs : List Call)
    → all_server_calls cs ≡ true
    → ((run s cs).last_activity ≡ s.last_activity) × ((run s cs).closed ≡ s.closed)
unfolding run
run-last_activity s [] h = (refl, refl)
run-last_activity s (c ∷ cs) h =
    ground (arith, step-last_activity s c, run-last_activity (step s c) cs)

-- In a table with distinct identifiers and a positive time to live, an open session whose client
-- has been silent for longer than that is gone at the next lookup, however many messages the
-- server has written to it, read from it or timed in the meantime.
pub get-silent :
    (now : ℕ) (id : Bytes) (m : Manager) (s : Session) (cs : List Call)
    → Distinct m.sessions
    → 0 < m.config.session_ttl
    → all_server_calls cs ≡ true
    → find_session id m.sessions ≡ some (run s cs)
    → s.closed ≡ false
    → s.last_activity + m.config.session_ttl < now
    → (get now id m).1 ≡ none
unfolding is_expired
get-silent now id m s cs d pos quiet found live old =
    get_lem now id m d pos ∙ ground (arith, found, run-last_activity s cs quiet)
