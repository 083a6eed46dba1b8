-- ===== src/Admin/Lifetime.antt =====
-- server/admin.go: how long a session of the dashboard is valid.
use nvda_remote_go.Prelude.{
  ℕ, ◌+◌, ◌≤◌, ◌<◌, ◌≡◌, refl, ◌∙◌, Bytes, false, Option, none, some, List, [], ◌∷◌, leb, is_empty,
  bytes_eq, bytes_eq_iff, bytes_eq_refl, lookup, lookup-erase, lookup-put, ◌⊎◌, inl, arith,
}
use nvda_remote_go.Admin.Account.{
  Account, Crypt, admin_session_ttl, valid_admin_session, delete_admin_session,
  create_admin_session,
}

-- The calls that read or change the sessions.
pub data SessionCall : Type 0 where
  creates : ℕ → Option Bytes → SessionCall
  checks : ℕ → Bytes → SessionCall
  deletes : Bytes → SessionCall

module _ (crypt : Crypt) where
  unfoldable pub step : Account → SessionCall → Account
  unfolding create_admin_session valid_admin_session delete_admin_session
  step a (creates now random) = (create_admin_session crypt now random a).0
  step a (checks now token) = (valid_admin_session now token a).0
  step a (deletes token) = delete_admin_session token a

  unfoldable pub run : Account → List SessionCall → Account
  run a [] = a
  run a (c ∷ cs) = run (step a c) cs

  -- The call neither deletes the token nor draws it again, and no check is later than `now`.
  abbrev pub Spares : ℕ → Bytes → SessionCall → Type 0
  Spares now token (creates t none) = Unit {0}
  Spares now token (creates t (some bytes)) = bytes_eq (crypt.encode_hex bytes) token ≡ false
  Spares now token (checks t other) = t ≤ now
  Spares now token (deletes other) = bytes_eq other token ≡ false

  abbrev pub AllSpare : ℕ → Bytes → List SessionCall → Type 0
  AllSpare now token [] = Unit {0}
  AllSpare now token (c ∷ cs) = Spares now token c × AllSpare now token cs

  -- The token is there with its end, or its end has passed.
  abbrev Lives : ℕ → Bytes → ℕ → Account → Type 0
  Lives now token end a =
      (lookup token a.sessions ≡ some end) ⊎ ((lookup token a.sessions ≡ none) × (end < now))

  step-Lives :
      (now : ℕ) (token : Bytes) (end : ℕ) (a : Account) (c : SessionCall)
      → Spares now token c
      → Lives now token end a
      → Lives now token end (step a c)
  unfolding step
  step-Lives now token end a (creates t none) h l = l
  step-Lives now token end a (creates t (some bytes)) h l =
      ground (arith, lookup-put (crypt.encode_hex bytes) token (t + admin_session_ttl) a.sessions)
  step-Lives now token end a (checks t other) h l =
      ground (arith, lookup-erase other token a.sessions, bytes_eq_iff other token)
  step-Lives now token end a (deletes other) h l =
      ground (arith, lookup-erase other token a.sessions)

  run-Lives :
      (now : ℕ) (token : Bytes) (end : ℕ) (a : Account) (cs : List SessionCall)
      → AllSpare now token cs
      → Lives now token end a
      → Lives now token end (run a cs)
  unfolding run
  run-Lives now token end a [] h l = l
  run-Lives now token end a (c ∷ cs) h l =
      run-Lives now token end (step a c) cs h.1 (step-Lives now token end a c h.0 l)

  Lives-valid :
      (now : ℕ) (token : Bytes) (end : ℕ) (a : Account)
      → is_empty token ≡ false
      → Lives now token end a
      → (valid_admin_session now token a).1 ≡ leb now end
  unfolding valid_admin_session
  Lives-valid now token end a h l = ground arith

  created-Lives :
      (start now : ℕ) (bytes : Bytes) (a : Account)
      → Lives now
          (crypt.encode_hex bytes)
          (start + admin_session_ttl)
          (create_admin_session crypt start (some bytes) a).0
  unfolding create_admin_session
  created-Lives start now bytes a =
      let token = crypt.encode_hex bytes in
      inl (
        lookup-put token token (start + admin_session_ttl) a.sessions
        ∙ rw (bytes_eq_refl token) refl)

  -- A session created at some time is valid exactly until two hours later, whatever calls on the
  -- sessions come between, as long as none deletes its token or draws it again and no check among
  -- them is later than the time asked about (the token is not empty).
  pub valid-history :
      (start now : ℕ) (bytes : Bytes) (a : Account) (cs : List SessionCall)
      → is_empty (crypt.encode_hex bytes) ≡ false
      → AllSpare now (crypt.encode_hex bytes) cs
      → (valid_admin_session now
          (crypt.encode_hex bytes)
          (run (create_admin_session crypt start (some bytes) a).0 cs)).1
        ≡ leb now (start + admin_session_ttl)
  valid-history start now bytes a cs full spared =
      Lives-valid now (crypt.encode_hex bytes) (start + admin_session_ttl) _ full (
        run-Lives now (crypt.encode_hex bytes) (start + admin_session_ttl) _ cs spared
          (created-Lives start now bytes a))
