-- ===== src/Relay/Posted.antt =====
-- What a post does to a session, one message of its batch after the other: server/httprelay.go
-- `handleHTTPSessionPost`.
use nvda_remote_go.Prelude.{
  ℕ, suc, ◌≡◌, ◌≤◌, Bytes, refl, ap, subst, ◌≢◌, ◌∙◌, true, false, Option, none, some, List, [],
  ◌∷◌, ◌++◌, if◌then◌else◌, ltb, length, is_empty, ◌==◌, arith,
}
use nvda_remote_go.Session.State.{Session, SequencedMessage, HttpError, config}
use nvda_remote_go.Session.Receive.{accept_inbound}
use nvda_remote_go.Session.Posting.{accept_inbound-next}
use nvda_remote_go.Session.History.{
  Call, accepts, step, run, stores, takes, hands_over, all_stored, all_taken, all_handed_over,
}
use nvda_remote_go.Relay.Request.{
  Http, Decoded, body_too_large, invalid_json, decoded, Reply, accepted,
}
use nvda_remote_go.Relay.Post.{refusal, refusal_of, invalid_message}

-- Of messages that are read in order after number `n`, those that continue the numbering.
unfoldable pub continuing : ℕ → List SequencedMessage → List SequencedMessage
continuing n [] = []
continuing n (m ∷ ms) =
    let taken = continuing (suc n) ms in
    let passed = continuing n ms in if m.sequence == suc n then m ∷ taken else passed

-- What the batch of a body is, if it has one.
abbrev pub batch_of : Decoded → List SequencedMessage
batch_of body_too_large = []
batch_of invalid_json = []
batch_of (decoded q) = q.messages

module _ (http : Http) where
  -- Every payload is a JSON object, is not empty and has at most `limit` bytes.
  unfoldable pub AllObjects : ℕ → List SequencedMessage → Type 0
  AllObjects limit [] = Unit {0}
  AllObjects limit (m ∷ ms) =
      (is_empty m.payload ≡ false)
      × (http.is_json_object m.payload ≡ true)
      × (ltb limit (length m.payload) ≡ false)
      × AllObjects limit ms

  -- Every message has a number of at most `bound`.
  unfoldable pub AllUpTo : ℕ → List SequencedMessage → Type 0
  AllUpTo bound [] = Unit {0}
  AllUpTo bound (m ∷ ms) = (m.sequence ≤ bound) × AllUpTo bound ms

  -- The calls that a post makes on the session `s`, and how far it reads its batch.
  pub record Posted (batch : List SequencedMessage) (s : Session) (x : Session × Reply)
      : Type 0 where
    pub calls : List Call
    pub leads : x.0 ≡ run s calls
    pub stores_nothing : all_stored s calls ≡ []
    pub hands_nothing : all_handed_over s calls ≡ []
    pub read : List SequencedMessage
    pub rest : List SequencedMessage
    pub in_order : batch ≡ read ++ rest
    pub objects : AllObjects (config s).max_message_bytes read
    pub takes : all_taken s calls ≡ continuing s.next_inbound read
    pub grows : s.next_inbound ≤ x.0.next_inbound
    pub reached : AllUpTo x.0.next_inbound read
    pub whole : (n : ℕ) → x.1 ≡ accepted n → (rest ≡ []) × (n ≡ x.0.next_inbound)

  -- A post that does nothing and is refused.
  pub nothing-Posted :
      (batch : List SequencedMessage) (s : Session) (r : Reply)
      → ((n : ℕ) → r ≡ accepted n → batch ≡ [])
      → ((n : ℕ) → r ≡ accepted n → n ≡ s.next_inbound)
      → Posted batch s (s, r)
  unfolding run all_stored all_taken all_handed_over continuing AllObjects AllUpTo
  nothing-Posted batch s r h g = record {
    calls = [];
    leads = refl;
    stores_nothing = refl;
    hands_nothing = refl;
    read = [];
    rest = batch;
    in_order = refl;
    objects = tt;
    takes = refl;
    grows = omega arith;
    reached = tt;
    whole = λ n e. (h n e, g n e);
  }

  accept_inbound-config :
      (now q : ℕ) (p : Bytes) (s : Session) → config (accept_inbound now q p s).0 ≡ config s
  unfolding accept_inbound config
  accept_inbound-config now q p s = ground arith

  -- A refusal of the session leaves it as it was.
  pub accept_inbound-refused :
      (now q : ℕ) (p : Bytes) (s : Session) (e : HttpError)
      → (accept_inbound now q p s).1 ≡ some e
      → (accept_inbound now q p s).0 ≡ s
  unfolding accept_inbound
  accept_inbound-refused now q p s e h = ground (arith, h)

  -- A message that is passed over has been taken before.
  accept_inbound-passed :
      (now q : ℕ) (p : Bytes) (s : Session) (e : HttpError)
      → (accept_inbound now q p s).1 ≡ some e
      → refusal e ≡ none
      → q ≤ s.next_inbound
  unfolding accept_inbound refusal
  accept_inbound-passed now q p s e h g = ground (arith, h, g)

  valid-object :
      (m : SequencedMessage) (s : Session)
      → invalid_message http m s ≡ none
      → (is_empty m.payload ≡ false)
        × (http.is_json_object m.payload ≡ true)
        × (ltb (config s).max_message_bytes (length m.payload) ≡ false)
  unfolding invalid_message
  valid-object m s h = ground (arith, h)

  pub invalid-not_accepted :
      (m : SequencedMessage) (s : Session) (r : Reply) (n : ℕ)
      → invalid_message http m s ≡ some r
      → r ≢ accepted n
  unfolding invalid_message
  invalid-not_accepted m s r n h e = ground (arith, h, e)

  pub refused-not_accepted :
      (e : HttpError) (r : Reply) (n : ℕ) → refusal e ≡ some r → r ≢ accepted n
  unfolding refusal
  refused-not_accepted e r n h q = ground (arith, h, q)

  module _ (now : ℕ) (m : SequencedMessage) (ms : List SequencedMessage) (s : Session)
      (x : Session × Reply) where
    abbrev tried : Session × Option HttpError
    tried = accept_inbound now m.sequence m.payload s

    -- A message that is taken, or passed over, before the others.
    after-Posted :
        invalid_message http m s ≡ none
        → m.sequence ≤ tried.0.next_inbound
        → s.next_inbound ≤ tried.0.next_inbound
        → ((read : List SequencedMessage)
            → takes s (accepts now m.sequence m.payload) ++ continuing tried.0.next_inbound read
              ≡ continuing s.next_inbound (m ∷ read))
        → Posted ms tried.0 x
        → Posted (m ∷ ms) s x
    unfolding run step all_stored stores all_taken all_handed_over hands_over AllObjects AllUpTo
    after-Posted valid up grew took p =
        let v = valid-object m s valid in
        record {
          calls = accepts now m.sequence m.payload ∷ p.calls;
          leads = p.leads;
          stores_nothing = p.stores_nothing;
          hands_nothing = p.hands_nothing;
          read = m ∷ p.read;
          rest = p.rest;
          in_order = ap (◌∷◌ m) p.in_order;
          objects = (
            v.0,
            v.1,
            v.2,
            subst (λ c. AllObjects c.max_message_bytes p.read)
                (accept_inbound-config now m.sequence m.payload s) p.objects,
          );
          takes = ap (◌++◌ (takes s (accepts now m.sequence m.payload))) p.takes ∙ took p.read;
          grows = ground (arith, grew, p.grows);
          reached = (ground (arith, up, p.grows), p.reached);
          whole = p.whole;
        }

    -- What the session says of the message.
    pub tried-Posted :
        (o : Option HttpError)
        → tried.1 ≡ o
        → invalid_message http m s ≡ none
        → refusal_of o ≡ none
        → Posted ms tried.0 x
        → Posted (m ∷ ms) s x
    unfolding takes continuing
    tried-Posted none e valid f p =
        let a = accept_inbound-next now m.sequence m.payload s e in
        after-Posted valid (ground (arith, a)) (ground (arith, a)) (λ read. ground (arith, e, a)) p
    tried-Posted (some h) e valid f p =
        let same = accept_inbound-refused now m.sequence m.payload s h e in
        let up = accept_inbound-passed now m.sequence m.payload s h e f in
        after-Posted valid (rw same up) (rw same (omega arith))
          (λ read. ground (arith, e, same, up)) p
