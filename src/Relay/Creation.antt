-- ===== src/Relay/Creation.antt =====
-- server/httprelay.go, httprelay_v2.go: a created session and the requests that follow.
use nvda_remote_go.Prelude.{
  ℕ, suc, ◌+◌, ◌≡◌, refl, ap, ◌∙◌, subst, Bytes, Bool, true, false, some, ◌++◌, arith, bytes_eq,
  contains-insert, inl, inr, ◌⊎◌, codes, if◌then◌else◌,
}
use nvda_remote_go.Session.State.{Session, RelayConfig}
use nvda_remote_go.Manager.Table.{Manager, Platform, Draw, Created, created, find_session, create}
use nvda_remote_go.Hub.State.{Hub}
use nvda_remote_go.Hub.Registry.{add_client, find_client}
use nvda_remote_go.Relay.Request.{Http, Request, bearer}
use nvda_remote_go.Relay.Routes.{is_authorized}
use nvda_remote_go.Relay.Create.{
  Creation, CreateBody, CreateResponse, CreateReply, not_created, session_created, World, Gate,
  new_http_client, response_v1, response_v2, after_create, body_checked, create_checked,
  http_relay_connection_allowed, too_large, not_json, asks_for, handle_http_create_session,
  handle_http_create_session_v2,
}
use nvda_remote_go.Relay.Opened.{
  IsTokenCodec, FillsTokens, Opens, OpensCreated, create-Opens, Opens-is_authorized,
}

module _ (http : Http) (platform : Platform) where
  module _ (creation : Creation) (now : ℕ) (draws : ℕ → Draw) (addr : Bytes) (g : Gate)
      (r : Request) (w : World) where
    -- What is left by the creation of a session, and what the reply says of it.
    pub record IsOpen (h : Hub) (w' : World) (reply : CreateResponse) : Type 0 where
      pub session : Session
      pub opens : Opens http platform w'.manager session reply.token
      pub names : reply.session_id ≡ session.id
      pub client : find_client (suc h.last_id) w'.hub ≡ true

    -- Every session that has been created is in the table, and its client in the hub; a refusal
    -- leaves the hub alone.
    abbrev LeavesOpen : World × CreateReply → Type 0
    LeavesOpen (w', session_created reply) = IsOpen w.hub w' reply
    LeavesOpen (w', not_created status code) = w'.hub ≡ w.hub

    module _ (respond : RelayConfig → Session → Bytes → CreateResponse) (protocol : Bytes)
        (names : (c : RelayConfig) (s : Session) (t : Bytes)
          → ((respond c s t).session_id ≡ s.id) × ((respond c s t).token ≡ t)) where
      after_create-LeavesOpen :
          (x : Manager × Created)
          → OpensCreated http platform x
          → LeavesOpen
              (after_create http platform creation respond protocol now draws addr g w.hub x)
      unfolding new_http_client add_client find_client
      after_create-LeavesOpen (m, created s token) o = record {
        session = s;
        opens = rw ((names m.config s token).1) o;
        names = (names m.config s token).0;
        client =
            ground
              (arith, contains-insert (w.hub.last_id + 1) (suc w.hub.last_id) w.hub.registered);
      }
      after_create-LeavesOpen (m, Created.refused e) o = refl

      if-LeavesOpen :
          (b : Bool) (x y : World × CreateReply)
          → LeavesOpen x
          → LeavesOpen y
          → LeavesOpen (if b then x else y)
      if-LeavesOpen true x y p q = p
      if-LeavesOpen false x y p q = q

      body_checked-LeavesOpen :
          (body : CreateBody)
          → FillsTokens http platform draws
          → LeavesOpen
              (body_checked http platform creation respond protocol now draws addr g body w)
      unfolding create
      body_checked-LeavesOpen too_large full = refl
      body_checked-LeavesOpen not_json full = refl
      body_checked-LeavesOpen (asks_for asked) full =
          if-LeavesOpen (bytes_eq asked protocol) _ _
            (if-LeavesOpen (http_relay_connection_allowed http platform creation g) _ _
              (after_create-LeavesOpen (create platform now draws addr w.manager)
                (create-Opens http platform now draws addr w.manager full))
              refl)
            refl

      create_checked-LeavesOpen :
          FillsTokens http platform draws
          → LeavesOpen (create_checked http platform creation respond protocol now draws addr g r w)
      create_checked-LeavesOpen full =
          if-LeavesOpen (bytes_eq r.method (codes "POST")) _ _
            (if-LeavesOpen (http.is_json_content r.content_type) _ _
              (body_checked-LeavesOpen (creation.decode_create 4096 r.body) full) refl)
            refl

    created-IsOpen :
        (w' : World) (reply : CreateResponse)
        → FillsTokens http platform draws
        → (handle_http_create_session http platform creation now draws addr g r w
            ≡ (w', session_created reply))
          ⊎ (handle_http_create_session_v2 http platform creation now draws addr g r w
              ≡ (w', session_created reply))
        → IsOpen w.hub w' reply
    unfolding handle_http_create_session handle_http_create_session_v2
    created-IsOpen w' reply full (inl made) = subst LeavesOpen made (
        create_checked-LeavesOpen response_v1 (codes "nvdaremote-http/1") (λ c s t. (refl, refl))
          full)
    created-IsOpen w' reply full (inr made) = subst LeavesOpen made (
        create_checked-LeavesOpen response_v2 (codes "nvdaremote-http/2") (λ c s t. (refl, refl))
          full)

    -- When a request creates a session, of version 1 or of version 2, the table has the session
    -- under the identifier of the reply, a request that bears the token of the reply is authorized
    -- for it, and the hub has a client under its next identifier (base64 decodes what it encoded and
    -- gives no blank, and the random source fills tokens).
    pub create-is_authorized :
        (w' : World) (reply : CreateResponse) (q : Request)
        → IsTokenCodec http platform
        → FillsTokens http platform draws
        → (handle_http_create_session http platform creation now draws addr g r w
            ≡ (w', session_created reply))
          ⊎ (handle_http_create_session_v2 http platform creation now draws addr g r w
              ≡ (w', session_created reply))
        → q.authorization ≡ bearer ++ reply.token
        → (s : Session) × (find_session reply.session_id w'.manager.sessions ≡ some s)
          × (is_authorized http platform q s ≡ true)
          × (find_client (suc w.hub.last_id) w'.hub ≡ true)
    create-is_authorized w' reply q codec full made auth =
        let o = created-IsOpen w' reply full made in
        (
          o.session,
          ap (λ id. find_session id w'.manager.sessions) o.names ∙ o.opens.is_found,
          Opens-is_authorized http platform w'.manager o.session reply.token q codec o.opens auth,
          o.client,
        )
