-- ===== src/Relay/Post.antt =====
-- server/httprelay.go `handleHTTPSessionPost`: a batch of messages from the client.
use nvda_remote_go.Prelude.{
  ℕ, ◌+◌, ◌*◌, Option, none, some, List, [], ◌∷◌, codes, not, ◌&&◌, ◌||◌, ◌==◌, ltb, is_empty,
  length, if◌then◌else◌,
}
use nvda_remote_go.Session.State.{
  Session, SequencedMessage, HttpError, config, message_too_large, sequence_invalid,
}
use nvda_remote_go.Session.Receive.{accept_inbound}
use nvda_remote_go.Session.Send.{acknowledge_outbound}
use nvda_remote_go.Relay.Request.{
  Http, Request, InboundRequest, Decoded, body_too_large, invalid_json, decoded, Reply, failed,
  conflict, accepted,
}

-- What a refused message comes to: the reply that ends the request, or nothing where the message is
-- a duplicate.
unfoldable pub refusal : HttpError → Option Reply
refusal (sequence_invalid e) =
    if e.duplicate then none else some (conflict (codes "sequence_gap") e.expected)
refusal message_too_large = some (failed 413 (codes "message_too_large"))
refusal _ = some (failed 429 (codes "session_capacity"))

-- Whether the rest of the batch is read.
abbrev pub refusal_of : Option HttpError → Option Reply
refusal_of none = none
refusal_of (some e) = refusal e

abbrev pub go_on : Option Reply → Session → Session × Option Reply → Session × Option Reply
go_on none s rest = rest
go_on (some r) s rest = (s, some r)

abbrev pub ok_reply : Session × Option Reply → Session × Reply
ok_reply (s, none) = (s, accepted s.next_inbound)
ok_reply (s, some r) = (s, r)

module _ (http : Http) where
  -- The checks on a message before it is handed to the session.
  unfoldable pub invalid_message : SequencedMessage → Session → Option Reply
  invalid_message m s =
      if is_empty m.payload || not (http.is_json_object m.payload)
      then some (failed 400 (codes "invalid_message"))
      else if ltb (config s).max_message_bytes (length m.payload)
      then some (failed 413 (codes "message_too_large"))
      else none

  -- The loop over the batch: the reply that ends it early, if any.
  unfoldable pub post_each : ℕ → List SequencedMessage → Session → Session × Option Reply
  post_each now [] s = (s, none)
  post_each now (m ∷ ms) s =
      let tried = accept_inbound now m.sequence m.payload s in
      let rest = post_each now ms tried.0 in
      go_on (invalid_message m s) s (go_on (refusal_of tried.1) tried.0 rest)

  unfoldable pub post_batch : ℕ → InboundRequest → Session → Session × Reply
  post_batch now q s =
      if ltb (config s).max_batch_messages (length q.messages)
      then (s, failed 400 (codes "invalid_batch"))
      else if length q.messages == 0 && q.received_through == 0
      then (s, failed 400 (codes "invalid_batch"))
      else ok_reply (post_each now q.messages s)

  abbrev pub post_acknowledged : ℕ → InboundRequest → Session × Option HttpError → Session × Reply
  post_acknowledged now q (s, none) = post_batch now q s
  post_acknowledged now q (s, some e) =
      (s, conflict (codes "invalid_received_through") s.next_outbound)

  unfoldable pub post_decoded : ℕ → InboundRequest → Session → Session × Reply
  post_decoded now q s =
      if q.received_through == 0
      then post_batch now q s
      else post_acknowledged now q (acknowledge_outbound now q.received_through s)

  abbrev pub post_body : ℕ → Decoded → Session → Session × Reply
  post_body now body_too_large s = (s, failed 413 (codes "body_too_large"))
  post_body now invalid_json s = (s, failed 400 (codes "invalid_json"))
  post_body now (decoded q) s = post_decoded now q s

  unfoldable pub handle_http_session_post : ℕ → Request → Session → Session × Reply
  handle_http_session_post now r s =
      if http.is_json_content r.content_type
      then post_body now
          (http.decode_json ((config s).max_message_bytes * (config s).max_batch_messages + 4096)
            r.body)
          s
      else (s, failed 415 (codes "unsupported_media_type"))
