-- ===== src/Relay/Request.antt =====
-- server/httprelay.go: replies, the bearer token, and what is read by the standard library.
use nvda_remote_go.Prelude.{
  ℕ, Bytes, Bool, false, Option, none, some, List, [], ◌∷◌, codes, has_prefix, drop, length,
  is_empty, bytes_eq, ◌&&◌, ◌||◌, ◌==◌, if◌then◌else◌, ℤ,
}
use nvda_remote_go.Session.State.{Session, SequencedMessage}
use nvda_remote_go.Manager.Table.{Platform}

-- The fields of `httpInboundRequest`.
pub record InboundRequest : Type 0 where
  pub received_through : ℕ
  pub messages : List SequencedMessage

-- What `decodeHTTPJSON` comes to.
pub data Decoded : Type 0 where
  body_too_large invalid_json : Decoded
  decoded : InboundRequest → Decoded

-- The status, with the error code or what is sent back.
pub data Reply : Type 0 where
  no_content : Reply
  failed : ℕ → Bytes → Reply
  conflict : Bytes → ℕ → Reply
  accepted : ℕ → Reply
  polled : List SequencedMessage → ℕ → Reply

-- The functions of the standard library that the handlers call: `isJSONContentType`,
-- `decodeHTTPJSON` with its limit, `isJSONObject`, `strings.TrimSpace`, `strconv.ParseUint` in 64 bits
-- and `strconv.Atoi`.
pub record Http : Type 0 where
  pub is_json_content : Bytes → Bool
  pub decode_json : ℕ → Bytes → Decoded
  pub is_json_object : Bytes → Bool
  pub trim_space : Bytes → Bytes
  pub parse_uint : Bytes → Option ℕ
  pub atoi : Bytes → Option ℤ

pub record Request : Type 0 where
  pub method : Bytes
  pub authorization : Bytes
  pub content_type : Bytes
  pub body : Bytes
  pub after : Bytes
  pub wait : Bytes

-- `strings.ContainsAny(token, " \t\r\n")`
unfoldable pub has_blank : Bytes → Bool
has_blank [] = false
has_blank (c ∷ s) = c == 32 || c == 9 || c == 13 || c == 10 || has_blank s

abbrev pub bearer : Bytes
bearer = codes "Bearer "

module _ (http : Http) where
  abbrev pub checked_token : Bytes → Option Bytes
  checked_token token = if is_empty token || has_blank token then none else some token

  unfoldable pub require_bearer_token : Request → Option Bytes
  require_bearer_token r =
      if has_prefix bearer r.authorization
      then checked_token (http.trim_space (drop (length bearer) r.authorization))
      else none

module _ (platform : Platform) where
  abbrev pub hash_matches : Session → Option Bytes → Bool
  hash_matches s none = false
  hash_matches s (some bytes) = length bytes == 32 && bytes_eq s.token_hash (platform.sha256 bytes)

  unfoldable pub token_matches : Session → Bytes → Bool
  token_matches s token = hash_matches s (platform.decode64 token)
