-- ===== src/Relay/Tokens.antt =====
-- What a request without the session's token can do.
use nvda_remote_go.Prelude.{ℕ, ◌≡◌, refl, Bytes, Bool, false, Option, none, some, bytes_eq, arith}
use nvda_remote_go.Session.State.{Session}
use nvda_remote_go.Manager.Table.{Manager, Platform, get, expire_inactive}
use nvda_remote_go.Relay.Request.{Http, Request, require_bearer_token, token_matches, hash_matches}
use nvda_remote_go.Relay.Routes.{
  token_is_valid, delete_found, messages_found, handle_http_session_delete,
  handle_http_session_messages,
}

module _ (http : Http) (platform : Platform) where
  abbrev pub hash_of_is : Bytes → Option Bytes → Bool
  hash_of_is hash none = false
  hash_of_is hash (some bytes) = bytes_eq hash (platform.sha256 bytes)

  abbrev pub hash_of_token_is : Bytes → Option Bytes → Bool
  hash_of_token_is hash none = false
  hash_of_token_is hash (some token) = hash_of_is hash (platform.decode64 token)

  -- The request carries a token whose bytes have the hash that the session keeps.
  abbrev pub carries_token : Request → Session → Bool
  carries_token r s = hash_of_token_is s.token_hash (require_bearer_token http r)

  hash_mismatch :
      (s : Session) (o : Option Bytes)
      → hash_of_is s.token_hash o ≡ false
      → hash_matches platform s o ≡ false
  hash_mismatch s none h = refl
  hash_mismatch s (some bytes) h = ground (arith, h)

  token_invalid :
      (s : Session) (o : Option Bytes)
      → hash_of_token_is s.token_hash o ≡ false
      → token_is_valid http platform s o ≡ false
  unfolding token_matches
  token_invalid s none h = refl
  token_invalid s (some token) h = hash_mismatch s (platform.decode64 token) h

  messages_found-unauthorized :
      (now : ℕ) (r : Request) (others : Session → Session) (x : Manager × Option Session)
      → ((s : Session) → x.1 ≡ some s → carries_token r s ≡ false)
      → (messages_found http platform now r others x).0 ≡ x.0
  messages_found-unauthorized now r others (m, none) h = refl
  messages_found-unauthorized now r others (m, some s) h =
      rw (token_invalid s (require_bearer_token http r) (h s refl)) refl

  delete_found-unauthorized :
      (r : Request) (x : Manager × Option Session)
      → ((s : Session) → x.1 ≡ some s → carries_token r s ≡ false)
      → (delete_found http platform r x).0 ≡ x.0
  delete_found-unauthorized r (m, none) h = refl
  delete_found-unauthorized r (m, some s) h =
      rw (token_invalid s (require_bearer_token http r) (h s refl)) refl

  -- A request for a session that does not carry its token, be it to post, to poll or to delete,
  -- leaves every session as it is: all that happens is the expiry that any lookup makes.
  pub requests-unauthorized :
      (now : ℕ) (r : Request) (others : Session → Session) (id : Bytes) (m : Manager)
      → ((s : Session) → (get now id m).1 ≡ some s → carries_token r s ≡ false)
      → ((handle_http_session_messages http platform now r others id m).0 ≡ expire_inactive now m)
        × ((handle_http_session_delete http platform now r id m).0 ≡ expire_inactive now m)
  unfolding handle_http_session_messages handle_http_session_delete get
  requests-unauthorized now r others id m h = (
    messages_found-unauthorized now r others (get now id m) h,
    delete_found-unauthorized r (get now id m) h,
  )
