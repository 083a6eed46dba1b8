-- ===== src/Relay/Retry.antt =====
-- A post, and the same post sent again: server/httprelay.go `handleHTTPSessionPost`.
use nvda_remote_go.Prelude.{
  ℕ, ◌+◌, ◌*◌, ◌≡◌, refl, ◌∙◌, Bool, true, false, Option, none, some, List, [], ◌∷◌, ◌&&◌, ◌==◌,
  ltb, length, arith, Bool-cases, inl, inr,
}
use nvda_remote_go.Session.State.{Session, SequencedMessage, HttpError, config}
use nvda_remote_go.Session.Receive.{accept_inbound}
use nvda_remote_go.Session.Send.{acknowledge_outbound}
use nvda_remote_go.Relay.Request.{
  Http, Request, InboundRequest, Decoded, body_too_large, invalid_json, decoded, Reply, accepted,
}
use nvda_remote_go.Relay.Post.{
  refusal, ok_reply, invalid_message, post_each, post_batch, post_acknowledged, post_decoded,
  post_body, handle_http_session_post,
}
use nvda_remote_go.Relay.Batch.{Grows, post_each-Grows, post_each-post_each}

module _ (http : Http) where
  acknowledge_outbound-again :
      (now later n : ℕ) (s t : Session)
      → (acknowledge_outbound now n s).1 ≡ none
      → Grows (acknowledge_outbound now n s).0 t
      → acknowledge_outbound later n t ≡ (t, none)
  unfolding acknowledge_outbound
  acknowledge_outbound-again now later n s t h g =
      ground (arith, g.same_acknowledged, g.same_outbound, h)

  abbrev is_accepted : Option Reply → Bool
  is_accepted (some (accepted n)) = true
  is_accepted _ = false

  -- No refusal reads as an acceptance.
  post_each-refused :
      (now : ℕ) (ms : List SequencedMessage) (s : Session)
      → is_accepted (post_each http now ms s).1 ≡ false
  unfolding post_each invalid_message refusal
  post_each-refused now [] s = refl
  post_each-refused now (m ∷ ms) s =
      let tried = accept_inbound now m.sequence m.payload s in
      ground (arith, post_each-refused now ms tried.0)

  ok_reply-accepted :
      (x : Session × Option Reply) (n : ℕ)
      → is_accepted x.1 ≡ false
      → (ok_reply x).1 ≡ accepted n
      → x.1 ≡ none
  ok_reply-accepted (s, none) n a h = refl
  ok_reply-accepted (s, some r) n a h = cc

  ok_reply-none :
      (x : Session × Option Reply) → x.1 ≡ none → ok_reply x ≡ (x.0, accepted x.0.next_inbound)
  ok_reply-none (s, none) h = refl
  ok_reply-none (s, some r) h = cc

  taken_again :
      (now later n : ℕ) (ms : List SequencedMessage) (s : Session)
      → (ok_reply (post_each http now ms s)).1 ≡ accepted n
      → (ok_reply (post_each http later ms (ok_reply (post_each http now ms s)).0)
          ≡ ok_reply (post_each http now ms s))
        × Grows s (ok_reply (post_each http now ms s)).0
  taken_again now later n ms s h =
      let x = post_each http now ms s in
      let whole = ok_reply-accepted x n (post_each-refused now ms s) h in
      rw (ok_reply-none x whole, post_each-post_each http now later ms s whole)
        (refl, post_each-Grows http now ms s)

  post_batch-again :
      (now later n : ℕ) (q : InboundRequest) (s : Session)
      → (post_batch http now q s).1 ≡ accepted n
      → (post_batch http later q (post_batch http now q s).0 ≡ post_batch http now q s)
        × Grows s (post_batch http now q s).0
  unfolding post_batch config
  post_batch-again now later n q s h =
      elim (Bool-cases (ltb (config s).max_batch_messages (length q.messages))) [
        | inl many ↦ ground (arith, h, many)
        | inr few ↦ elim (Bool-cases (length q.messages == 0 && q.received_through == 0)) [
          | inl empty ↦ ground (arith, h, few, empty)
          | inr sent ↦
              let body = ok_reply (post_each http now q.messages s) in
              let again = taken_again now later n q.messages s (ground (arith, h, few, sent)) in
              ground (arith, again, again.1.same_config, few, sent)
        ]
      ]

  post_acknowledged-none :
      (now : ℕ) (q : InboundRequest) (x : Session × Option HttpError)
      → x.1 ≡ none
      → post_acknowledged http now q x ≡ post_batch http now q x.0
  post_acknowledged-none now q (s, none) h = refl
  post_acknowledged-none now q (s, some e) h = cc

  post_acknowledged-accepted :
      (now n : ℕ) (q : InboundRequest) (x : Session × Option HttpError)
      → (post_acknowledged http now q x).1 ≡ accepted n
      → x.1 ≡ none
  post_acknowledged-accepted now n q (s, none) h = refl
  post_acknowledged-accepted now n q (s, some e) h = cc

  acknowledge_outbound-config :
      (now n : ℕ) (s : Session) → (acknowledge_outbound now n s).0.manager_config ≡ s.manager_config
  unfolding acknowledge_outbound
  acknowledge_outbound-config now n s = ground arith

  acknowledged_again :
      (now later n : ℕ) (q : InboundRequest) (s : Session)
      → let first = post_acknowledged http now q (acknowledge_outbound now q.received_through s) in
        first.1 ≡ accepted n
        → (post_acknowledged http later q (acknowledge_outbound later q.received_through first.0)
            ≡ first)
          × (first.0.manager_config ≡ s.manager_config)
  acknowledged_again now later n q s h =
      let a = acknowledge_outbound now q.received_through s in
      let fine = post_acknowledged-accepted now n q a h in
      let whole = post_acknowledged-none now q a fine in
      let again = post_batch-again now later n q a.0 (rw (← whole) h) in
      rw
        (
          whole,
          acknowledge_outbound-again now later q.received_through s (post_batch http now q a.0).0
              fine again.1,
        )
        (again.0, again.1.same_config ∙ acknowledge_outbound-config now q.received_through s)

  post_decoded-again :
      (now later n : ℕ) (q : InboundRequest) (s : Session)
      → (post_decoded http now q s).1 ≡ accepted n
      → (post_decoded http later q (post_decoded http now q s).0 ≡ post_decoded http now q s)
        × ((post_decoded http now q s).0.manager_config ≡ s.manager_config)
  unfolding post_decoded
  post_decoded-again now later n q s h = elim (Bool-cases (q.received_through == 0)) [
    | inl no_number ↦
        let again = post_batch-again now later n q s (ground (arith, h, no_number)) in
        rw no_number (again.0, again.1.same_config)
    | inr number ↦ rw number (acknowledged_again now later n q s (ground (arith, h, number)))
  ]

  post_body-again :
      (now later n : ℕ) (d : Decoded) (s : Session)
      → (post_body http now d s).1 ≡ accepted n
      → (post_body http later d (post_body http now d s).0 ≡ post_body http now d s)
        × ((post_body http now d s).0.manager_config ≡ s.manager_config)
  post_body-again now later n body_too_large s h = cc
  post_body-again now later n invalid_json s h = cc
  post_body-again now later n (decoded q) s h = post_decoded-again now later n q s h

  -- A request that a session has accepted is accepted again, at any later time and before anything
  -- else happens to the session, with the same reply, and changes nothing: a client that has lost
  -- the reply may send the request again.
  pub post-post :
      (now later n : ℕ) (r : Request) (s : Session)
      → (handle_http_session_post http now r s).1 ≡ accepted n
      → handle_http_session_post http later r (handle_http_session_post http now r s).0
        ≡ handle_http_session_post http now r s
  unfolding handle_http_session_post config
  post-post now later n r s h = elim (Bool-cases (http.is_json_content r.content_type)) [
    | inr other ↦ ground (arith, h, other)
    | inl json ↦
        let d =
          http.decode_json ((config s).max_message_bytes * (config s).max_batch_messages + 4096)
            r.body in
        let again = post_body-again now later n d s (ground (arith, h, json)) in
        rw (json, again.1) again.0
  ]
