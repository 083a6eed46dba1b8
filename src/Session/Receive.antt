-- ===== src/Session/Receive.antt =====
-- server/httpconn.go: what the client sends, `acceptInbound`, and what `client.listen` reads of it,
-- `httpConn.ReadMessage`.
use nvda_remote_go.Prelude.{
  ℕ, Bytes, true, false, Option, none, some, List, [], ◌∷◌, ◌++◌, ltb, leb, ◌==◌, not,
  if◌then◌else◌, length,
}
use nvda_remote_go.Session.State.{Session, HttpError, config, succ_u64, sequence_error}

unfoldable pub accept_inbound : ℕ → ℕ → Bytes → Session → Session × Option HttpError
unfolding config
accept_inbound now sequence payload s =
    if sequence == 0
    then (s, sequence_error 1 sequence false)
    else if ltb (config s).max_message_bytes (length payload)
    then (s, some HttpError.message_too_large)
    else if s.closed
    then (s, some HttpError.conn_closed)
    else if leb sequence s.next_inbound
    then (s, sequence_error (succ_u64 s.next_inbound) sequence true)
    else if not (sequence == succ_u64 s.next_inbound)
    then (s, sequence_error (succ_u64 s.next_inbound) sequence false)
    else if leb s.inbound_cap (length s.inbound)
    then (s, some HttpError.pending_limit)
    else (
      record s {
        next_inbound = sequence;
        last_activity = now;
        inbound = s.inbound ++ payload ∷ [];
      },
      none,
    )

-- `httpConn.ReadMessage`: the end of the stream, a message, or a wait.
pub data ReadResult : Type 0 where
  eof : ReadResult
  message : Bytes → ReadResult
  would_block : ReadResult

abbrev take_inbound : List Bytes → Session → Session × ReadResult
take_inbound [] s = (s, would_block)
take_inbound (p ∷ rest) s = (record s { inbound = rest }, message p)

unfoldable pub read_message : Session → Session × ReadResult
read_message s = if s.closed then (s, eof) else take_inbound s.inbound s
