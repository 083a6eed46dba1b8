-- ===== src/Session/Poll.antt =====
-- server/httpconn.go: the one reader of a session at a time, its end, and the write deadline.
use nvda_remote_go.Prelude.{ℕ, true, false, Option, none, some, if◌then◌else◌}
use nvda_remote_go.Session.State.{Session, HttpError}

unfoldable pub begin_poll : ℕ → Session → Session × Option HttpError
begin_poll now s =
    if s.closed
    then (s, some HttpError.conn_closed)
    else if s.poll_active
    then (s, some HttpError.poll_already_active)
    else (record s { poll_active = true; last_activity = now }, none)

unfoldable pub end_poll : Session → Session
end_poll s = record s { poll_active = false }

-- `<-session.notify`: the notice is taken from the channel.
unfoldable pub take_notice : Session → Session
take_notice s = record s { notify = false }

-- `close`, up to the manager's `remove`; a second call finds `closeOnce` spent.
unfoldable pub close_session : Session → Session
close_session s = record s { closed = true }

unfoldable pub set_write_deadline : Option ℕ → Session → Session × Option HttpError
set_write_deadline deadline s =
    if s.closed
    then (s, some HttpError.conn_closed)
    else (record s { write_deadline = deadline }, none)
