-- ===== src/Relay/Batch.antt =====
-- A batch of messages, and the same batch sent again: server/httprelay.go.
use nvda_remote_go.Prelude.{
  ℕ, ◌≤◌, ◌≡◌, refl, ◌∙◌, Bytes, Bool, true, Option, none, some, List, [], ◌∷◌, not, ◌&&◌, ◌||◌,
  ◌==◌, leb, is_empty, length, arith, Option-cases, inl, inr,
}
use nvda_remote_go.Session.State.{Session, SequencedMessage, config}
use nvda_remote_go.Session.Receive.{accept_inbound}
use nvda_remote_go.Relay.Request.{Http, Reply}
use nvda_remote_go.Relay.Post.{refusal, refusal_of, go_on, invalid_message, post_each}

-- What messages of the client never take back.
pub record Grows (s t : Session) : Type 0 where
  pub further : s.next_inbound ≤ t.next_inbound
  pub same_closed : t.closed ≡ s.closed
  pub same_config : t.manager_config ≡ s.manager_config
  pub same_acknowledged : t.acknowledged ≡ s.acknowledged
  pub same_outbound : t.next_outbound ≡ s.next_outbound

Grows-trans : {s t u : Session} → Grows s t → Grows t u → Grows s u
Grows-trans p q = record {
  further = omega (arith, p.further, q.further);
  same_closed = q.same_closed ∙ p.same_closed;
  same_config = q.same_config ∙ p.same_config;
  same_acknowledged = q.same_acknowledged ∙ p.same_acknowledged;
  same_outbound = q.same_outbound ∙ p.same_outbound;
}

Grows-refl : (s : Session) → Grows s s
Grows-refl s = record {
  further = omega arith;
  same_closed = refl;
  same_config = refl;
  same_acknowledged = refl;
  same_outbound = refl;
}

accept_inbound-Grows : (now n : ℕ) (p : Bytes) (s : Session) → Grows s (accept_inbound now n p s).0
unfolding accept_inbound
accept_inbound-Grows now n p s = record {
  further = ground arith;
  same_closed = ground arith;
  same_config = ground arith;
  same_acknowledged = ground arith;
  same_outbound = ground arith;
}

go_on-Grows :
    (o : Option Reply) (s t : Session) (x : Session × Option Reply)
    → Grows s t
    → Grows s x.0
    → Grows s (go_on o t x).0
go_on-Grows none s t x p q = q
go_on-Grows (some r) s t x p q = p

module _ (http : Http) where
  pub post_each-Grows :
      (now : ℕ) (ms : List SequencedMessage) (s : Session) → Grows s (post_each http now ms s).0
  unfolding post_each
  post_each-Grows now [] s = Grows-refl s
  post_each-Grows now (m ∷ ms) s =
      let tried = accept_inbound now m.sequence m.payload s in
      let step = accept_inbound-Grows now m.sequence m.payload s in
      go_on-Grows (invalid_message http m s) s s _ (Grows-refl s) (
        go_on-Grows (refusal_of tried.1) s tried.0 _ step
          (Grows-trans step (post_each-Grows now ms tried.0)))

  -- A message that the session has: sending it again is harmless.
  abbrev is_settled : SequencedMessage → Session → Bool
  is_settled m s =
      not (m.sequence == 0)
      && leb m.sequence s.next_inbound
      && not s.closed
      && not (is_empty m.payload || not (http.is_json_object m.payload))
      && leb (length m.payload) (config s).max_message_bytes

  abbrev all_settled : List SequencedMessage → Session → Bool
  all_settled [] s = true
  all_settled (m ∷ ms) s = is_settled m s && all_settled ms s

  is_settled-Grows :
      (m : SequencedMessage) (s t : Session)
      → Grows s t
      → is_settled m s ≡ true
      → is_settled m t ≡ true
  unfolding config
  is_settled-Grows m s t g h = ground (arith, g.further, g.same_closed, g.same_config, h)

  accept_inbound-settled :
      (now : ℕ) (m : SequencedMessage) (s : Session)
      → invalid_message http m s ≡ none
      → refusal_of (accept_inbound now m.sequence m.payload s).1 ≡ none
      → is_settled m (accept_inbound now m.sequence m.payload s).0 ≡ true
  unfolding accept_inbound refusal invalid_message config
  accept_inbound-settled now m s valid h = ground arith

  settled_again :
      (later : ℕ) (m : SequencedMessage) (s : Session)
      → is_settled m s ≡ true
      → ((accept_inbound later m.sequence m.payload s).0 ≡ s)
        × (refusal_of (accept_inbound later m.sequence m.payload s).1 ≡ none)
        × (invalid_message http m s ≡ none)
  unfolding accept_inbound refusal invalid_message config
  settled_again later m s h = ground arith

  post_each-settled :
      (later : ℕ) (ms : List SequencedMessage) (s : Session)
      → all_settled ms s ≡ true
      → post_each http later ms s ≡ (s, none)
  unfolding post_each
  post_each-settled later [] s h = refl
  post_each-settled later (m ∷ ms) s h =
      let again = settled_again later m s (ground (arith, h)) in
      rw (again.2, again.1, again.0) (post_each-settled later ms s (ground (arith, h)))

  post_each-all_settled :
      (now : ℕ) (ms : List SequencedMessage) (s : Session)
      → (post_each http now ms s).1 ≡ none
      → all_settled ms (post_each http now ms s).0 ≡ true
  unfolding post_each
  post_each-all_settled now [] s h = refl
  post_each-all_settled now (m ∷ ms) s h =
      let tried = accept_inbound now m.sequence m.payload s in
      elim (Option-cases (invalid_message http m s)) [
        | inl valid ↦ elim (Option-cases (refusal_of tried.1)) [
          | inl fine ↦
              let rest = post_each-all_settled now ms tried.0 in
              let kept =
                is_settled-Grows m tried.0 (post_each http now ms tried.0).0
                  (post_each-Grows now ms tried.0) (accept_inbound-settled now m s valid fine) in
              rw (valid, fine) (ground (arith, kept, rest, h, valid, fine))
          | inr (r, e) ↦ ground (arith, h, valid, e)
        ]
        | inr (r, e) ↦ ground (arith, h, e)
      ]

  pub post_each-post_each :
      (now later : ℕ) (ms : List SequencedMessage) (s : Session)
      → (post_each http now ms s).1 ≡ none
      → post_each http later ms (post_each http now ms s).0 ≡ ((post_each http now ms s).0, none)
  post_each-post_each now later ms s h =
      post_each-settled later ms (post_each http now ms s).0 (post_each-all_settled now ms s h)
