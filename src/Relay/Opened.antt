-- ===== src/Relay/Opened.antt =====
-- server/httprelay.go: the session that a creation leaves, and the token that opens it.
use nvda_remote_go.Prelude.{
  ℕ, zero, suc, ◌≡◌, refl, sym, ap, ◌∙◌, subst, Bytes, true, false, Option, none, some, ◌++◌,
  length, is_empty, has_prefix-append, bytes_eq_refl, Option-cases, Bool-cases, inl, inr,
}
use nvda_remote_go.Session.State.{Session, new_http_session}
use nvda_remote_go.Manager.Table
use nvda_remote_go.Manager.Table.{
  Manager, Platform, Draw, Created, created, CreateError, find_session, try_draw, allocate, create,
  over_session_limit, over_ip_limit, expire_inactive,
}
use nvda_remote_go.Relay.Request.{
  Http, Request, bearer, has_blank, require_bearer_token, token_matches,
}
use nvda_remote_go.Relay.Routes.{is_authorized}

module _ (http : Http) (platform : Platform) where
  -- What the code relies on of base64 without padding and of `strings.TrimSpace`, on tokens.
  pub record IsTokenCodec : Type 0 where
    pub decodes : (b : Bytes) → platform.decode64 (platform.encode64 b) ≡ some b
    pub not_empty : (b : Bytes) → length b ≡ 32 → is_empty (platform.encode64 b) ≡ false
    pub not_blank : (b : Bytes) → length b ≡ 32 → has_blank (platform.encode64 b) ≡ false
    pub is_trimmed :
        (b : Bytes) → length b ≡ 32 → http.trim_space (platform.encode64 b) ≡ platform.encode64 b

  -- `rand.Read` fills the thirty-two bytes of a token.
  pub record FillsTokens (draws : ℕ → Draw) : Type 0 where
    pub filled : (i : ℕ) (b : Bytes) → (draws i).token_bytes ≡ some b → length b ≡ 32

  -- The session of the table that the token opens.
  pub record Opens (m : Manager) (s : Session) (token : Bytes) : Type 0 where
    pub bytes : Bytes
    pub is_full : length bytes ≡ 32
    pub is_encoded : token ≡ platform.encode64 bytes
    pub is_hashed : s.token_hash ≡ platform.sha256 bytes
    pub is_found : find_session s.id m.sessions ≡ some s

  abbrev pub OpensCreated : Manager × Created → Type 0
  OpensCreated (m, created s token) = Opens m s token
  OpensCreated (m, Created.refused e) = Unit {0}

  insert-Opens :
      (now : ℕ) (id token addr : Bytes) (m : Manager)
      → length token ≡ 32
      → OpensCreated (Table.insert platform now id token addr m)
  unfolding find_session new_http_session
  insert-Opens now id token addr m full = record {
    bytes = token;
    is_full = full;
    is_encoded = refl;
    is_hashed = refl;
    is_found = rw (bytes_eq_refl id) refl;
  }

  try_draw-Opens :
      (now : ℕ) (id token : Option Bytes) (addr : Bytes) (m : Manager) (again : Manager × Created)
      → ((b : Bytes) → token ≡ some b → length b ≡ 32)
      → OpensCreated again
      → OpensCreated (try_draw platform now id token addr m again)
  try_draw-Opens now none token addr m again full later = tt
  try_draw-Opens now (some id) none addr m again full later = tt
  try_draw-Opens now (some id) (some token) addr m again full later =
      elim (Option-cases (find_session (platform.encode64 id) m.sessions)) [
        | inl free ↦
            let drawn : try_draw platform now (some id) (some token) addr m again
                ≡ Table.insert platform now (platform.encode64 id) token addr m =
              rw (try_draw, free) refl in
            subst OpensCreated (sym drawn)
              (insert-Opens now (platform.encode64 id) token addr m (full token refl))
        | inr (s, taken) ↦
            let drawn : try_draw platform now (some id) (some token) addr m again ≡ again =
              rw (try_draw, taken) refl in
            subst OpensCreated (sym drawn) later
      ]

  allocate-Opens :
      (attempts now : ℕ) (draws : ℕ → Draw) (addr : Bytes) (m : Manager)
      → FillsTokens draws
      → OpensCreated (allocate platform attempts now draws addr m)
  unfolding allocate
  allocate-Opens zero now draws addr m full = tt
  allocate-Opens (suc k) now draws addr m full =
      try_draw-Opens now (draws k).id_bytes (draws k).token_bytes addr m _ (full.filled k)
        (allocate-Opens k now draws addr m full)

  pub create-Opens :
      (now : ℕ) (draws : ℕ → Draw) (addr : Bytes) (m : Manager)
      → FillsTokens draws
      → OpensCreated (create platform now draws addr m)
  unfolding create
  create-Opens now draws addr m full =
      let n = expire_inactive now m in
      let made = create platform now draws addr m in
      elim (Bool-cases (over_session_limit platform n)) [
        | inl over ↦
            let refused : made ≡ (n, Created.refused CreateError.session_limit) = rw over refl in
            subst OpensCreated (sym refused) tt
        | inr below ↦ elim (Bool-cases (over_ip_limit platform addr n)) [
          | inl over ↦
              let refused : made ≡ (n, Created.refused CreateError.per_ip_limit) =
                rw (below, over) refl in
              subst OpensCreated (sym refused) tt
          | inr free ↦
              let drawn : made ≡ allocate platform 3 now draws addr n = rw (below, free) refl in
              subst OpensCreated (sym drawn) (allocate-Opens 3 now draws addr n full)
        ]
      ]

  pub Opens-is_authorized :
      (m : Manager) (s : Session) (token : Bytes) (q : Request)
      → IsTokenCodec
      → Opens m s token
      → q.authorization ≡ bearer ++ token
      → is_authorized http platform q s ≡ true
  unfolding require_bearer_token token_matches
  Opens-is_authorized m s token q codec o auth =
      let sent : q.authorization ≡ bearer ++ platform.encode64 o.bytes =
        auth ∙ ap (◌++◌ bearer) o.is_encoded in
      rw
        (
          sent,
          has_prefix-append bearer (platform.encode64 o.bytes),
          codec.is_trimmed o.bytes o.is_full,
          codec.not_empty o.bytes o.is_full,
          codec.not_blank o.bytes o.is_full,
          codec.decodes o.bytes,
          o.is_full,
          o.is_hashed,
          bytes_eq_refl (platform.sha256 o.bytes),
        )
        refl
