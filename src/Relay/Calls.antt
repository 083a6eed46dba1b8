-- ===== src/Relay/Calls.antt =====
-- server/httprelay.go `handleHTTPSessionPost` as calls on a session, and what it takes of its batch.
use nvda_remote_go.Prelude.{
  ℕ, ◌+◌, ◌*◌, ◌≡◌, Bytes, refl, ap, subst, ◌∙◌, Bool, true, false, Option, none, some, List, [],
  ◌∷◌, codes, if◌then◌else◌, ltb, length, ◌==◌, ◌&&◌, arith, Option-cases, inl, inr,
}
use nvda_remote_go.Session.State.{Session, SequencedMessage, HttpError, config}
use nvda_remote_go.Session.Receive.{accept_inbound}
use nvda_remote_go.Session.Send.{acknowledge_outbound}
use nvda_remote_go.Session.History.{
  acknowledges, step, run, stores, takes, hands_over, all_stored, all_taken, all_handed_over,
}
use nvda_remote_go.Relay.Request.{
  Http, Request, InboundRequest, Decoded, body_too_large, invalid_json, decoded, Reply, failed,
  conflict, accepted,
}
use nvda_remote_go.Relay.Post.{
  refusal, ok_reply, invalid_message, post_each, post_batch, post_acknowledged, post_decoded,
  post_body, handle_http_session_post,
}
use nvda_remote_go.Relay.Posted.{
  continuing, batch_of, AllObjects, Posted, nothing-Posted, accept_inbound-refused,
  invalid-not_accepted, refused-not_accepted, tried-Posted,
}

module _ (http : Http) where
  post_each-Posted :
      (now : ℕ) (ms : List SequencedMessage) (s : Session)
      → Posted http ms s (ok_reply (post_each http now ms s))
  unfolding post_each
  post_each-Posted now [] s =
      nothing-Posted http [] s (accepted s.next_inbound) (λ n e. refl) (λ n e. cc)
  post_each-Posted now (m ∷ ms) s =
      let t = accept_inbound now m.sequence m.payload s in
      let later = post_each-Posted now ms t.0 in
      elim (Option-cases (invalid_message http m s)) [
        | inr (r, e) ↦
            let no = invalid-not_accepted http m s r in
            rw e (
              nothing-Posted http (m ∷ ms) s r (λ n q. absurd (no n e q))
                (λ n q. absurd (no n e q)))
        | inl valid ↦ elim (Option-cases t.1) [
          | inl e ↦
              rw (valid, e)
                (tried-Posted http now m ms s (ok_reply (post_each http now ms t.0)) none e valid
                  refl later)
          | inr (h, e) ↦ elim (Option-cases (refusal h)) [
            | inl f ↦
                rw (valid, e, f)
                  (tried-Posted http now m ms s (ok_reply (post_each http now ms t.0)) (some h) e
                    valid f later)
            | inr (r, f) ↦
                let no = refused-not_accepted http h r in
                rw (valid, e, f, accept_inbound-refused http now m.sequence m.payload s h e)
                  (nothing-Posted http (m ∷ ms) s r (λ n q. absurd (no n f q))
                    (λ n q. absurd (no n f q)))
          ]
        ]
      ]

  if-Posted :
      (batch : List SequencedMessage) (s : Session) (b : Bool) (x y : Session × Reply)
      → Posted http batch s x
      → Posted http batch s y
      → Posted http batch s (if b then x else y)
  if-Posted batch s true x y p q = p
  if-Posted batch s false x y p q = q

  -- A refusal that reads nothing.
  refused-Posted :
      (batch : List SequencedMessage) (s : Session) (status : ℕ) (code : Bytes)
      → Posted http batch s (s, failed status code)
  refused-Posted batch s status code =
      nothing-Posted http batch s (failed status code) (λ n e. cc) (λ n e. cc)

  post_batch-Posted :
      (now : ℕ) (q : InboundRequest) (s : Session)
      → Posted http q.messages s (post_batch http now q s)
  unfolding post_batch
  post_batch-Posted now q s =
      let invalid = refused-Posted q.messages s 400 (codes "invalid_batch") in
      let failure : Session × Reply = (s, failed 400 (codes "invalid_batch")) in
      let whole = ok_reply (post_each http now q.messages s) in
      let none_given = length q.messages == 0 && q.received_through == 0 in
      if-Posted q.messages s (ltb (config s).max_batch_messages (length q.messages)) failure
        (if none_given then failure else whole) invalid
        (if-Posted q.messages s none_given failure whole invalid
          (post_each-Posted now q.messages s))

  acknowledge_outbound-same :
      (now n : ℕ) (s : Session)
      → (config (acknowledge_outbound now n s).0 ≡ config s)
        × ((acknowledge_outbound now n s).0.next_inbound ≡ s.next_inbound)
  unfolding acknowledge_outbound config
  acknowledge_outbound-same now n s = ground arith

  -- An acknowledgement before the batch.
  acknowledged-Posted :
      (now n : ℕ) (batch : List SequencedMessage) (s : Session) (x : Session × Reply)
      → Posted http batch (acknowledge_outbound now n s).0 x
      → Posted http batch s x
  unfolding run step all_stored stores all_taken takes all_handed_over hands_over
  acknowledged-Posted now n batch s x p =
      let same = acknowledge_outbound-same now n s in
      record {
        calls = acknowledges now n ∷ p.calls;
        leads = p.leads;
        stores_nothing = p.stores_nothing;
        hands_nothing = p.hands_nothing;
        read = p.read;
        rest = p.rest;
        in_order = p.in_order;
        objects = subst (λ c. AllObjects http c.max_message_bytes p.read) same.0 p.objects;
        takes = p.takes ∙ ap (λ k. continuing k p.read) same.1;
        grows = ground (arith, same, p.grows);
        reached = p.reached;
        whole = p.whole;
      }

  post_acknowledged-Posted :
      (now : ℕ) (q : InboundRequest) (x : Session × Option HttpError)
      → Posted http q.messages x.0 (post_acknowledged http now q x)
  post_acknowledged-Posted now q (s, none) = post_batch-Posted now q s
  post_acknowledged-Posted now q (s, some e) =
      nothing-Posted http q.messages s (conflict (codes "invalid_received_through") s.next_outbound)
        (λ n h. cc) (λ n h. cc)

  post_decoded-Posted :
      (now : ℕ) (q : InboundRequest) (s : Session)
      → Posted http q.messages s (post_decoded http now q s)
  unfolding post_decoded
  post_decoded-Posted now q s =
      let n = q.received_through in
      let tried' = acknowledge_outbound now n s in
      if-Posted q.messages s (n == 0) (post_batch http now q s)
        (post_acknowledged http now q tried') (post_batch-Posted now q s)
        (acknowledged-Posted now n q.messages s (post_acknowledged http now q tried')
          (post_acknowledged-Posted now q tried'))

  post_body-Posted :
      (now : ℕ) (d : Decoded) (s : Session) → Posted http (batch_of d) s (post_body http now d s)
  post_body-Posted now body_too_large s = refused-Posted [] s 413 (codes "body_too_large")
  post_body-Posted now invalid_json s = refused-Posted [] s 400 (codes "invalid_json")
  post_body-Posted now (decoded q) s = post_decoded-Posted now q s

  -- Whatever a post does to a session, a history of calls on the session does, which stores nothing
  -- for the client and reads nothing for the server. What it takes from the client is the messages
  -- that continue the numbering, as they were sent and in order, of some initial part of the batch
  -- of the request, whose payloads are all JSON objects, not empty and within the limit, and whose
  -- numbers are all at most the last one taken; and the reply is an acceptance only if that part is
  -- the whole batch, and has the number of the last message taken.
  pub post-Posted :
      (now : ℕ) (r : Request) (s : Session)
      → Posted http
          (batch_of (
            http.decode_json
              ((config s).max_message_bytes * (config s).max_batch_messages + 4096)
              r.body))
          s
          (handle_http_session_post http now r s)
  unfolding handle_http_session_post
  post-Posted now r s =
      let d =
        http.decode_json ((config s).max_message_bytes * (config s).max_batch_messages + 4096)
          r.body in
      if-Posted (batch_of d) s (http.is_json_content r.content_type) (post_body http now d s)
        (s, failed 415 (codes "unsupported_media_type")) (post_body-Posted now d s)
        (refused-Posted (batch_of d) s 415 (codes "unsupported_media_type"))
