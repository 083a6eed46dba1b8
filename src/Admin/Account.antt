-- ===== src/Admin/Account.antt =====
-- server/admin.go: the password of the dashboard and its sessions.
use nvda_remote_go.Prelude.{
  ℕ, ◌+◌, Bytes, Bool, true, false, Option, none, some, List, [], ◌∷◌, ◌++◌, codes, not, ◌&&◌, leb,
  is_empty, bytes_eq, if◌then◌else◌, lookup, erase, put,
}

-- `adminPasswordHash`, `adminSessions` with the end of each, and the file that keeps the hash:
-- whether one is configured, and what it holds.
pub record Account : Type 0 where
  pub password_hash : Bytes
  pub sessions : List (Bytes × ℕ)
  pub has_file : Bool
  pub file : Option Bytes

-- `bcrypt.GenerateFromPassword`, `bcrypt.CompareHashAndPassword`, `hex.EncodeToString` and
-- `strings.TrimSpace`.
pub record Crypt : Type 0 where
  pub generate : Bytes → Option Bytes
  pub compare : Bytes → Bytes → Bool
  pub encode_hex : Bytes → Bytes
  pub trim_space : Bytes → Bytes

abbrev pub admin_username : Bytes
admin_username = codes "administrator"

-- two hours
abbrev pub admin_session_ttl : ℕ
admin_session_ttl = 7200000000000

unfoldable pub admin_password_defined : Account → Bool
admin_password_defined a = not (is_empty a.password_hash)

abbrev pub kept : ℕ → Bytes → Account → ℕ → Account × Bool
kept now token a expiry =
    if leb now expiry then (a, true) else (record a { sessions = erase token a.sessions }, false)

abbrev pub session_found : ℕ → Bytes → Account → Option ℕ → Account × Bool
session_found now token a none = (a, false)
session_found now token a (some expiry) = kept now token a expiry

-- A session that is found to have expired is deleted.
unfoldable pub valid_admin_session : ℕ → Bytes → Account → Account × Bool
valid_admin_session now token a =
    if is_empty token then (a, false) else session_found now token a (lookup token a.sessions)

unfoldable pub delete_admin_session : Bytes → Account → Account
delete_admin_session token a =
    if is_empty token then a else record a { sessions = erase token a.sessions }

abbrev cookie_checked : ℕ → Option Bytes → Account → Account × Bool
cookie_checked now none a = (a, false)
cookie_checked now (some token) a = valid_admin_session now token a

-- The cookie is that of the request, if it has one.
unfoldable pub admin_request_authorized : ℕ → Option Bytes → Account → Account × Bool
unfolding valid_admin_session
admin_request_authorized now cookie a = cookie_checked now cookie a

module _ (crypt : Crypt) where
  -- The random bytes, unless the source fails.
  abbrev new_admin_token : Option Bytes → Option Bytes
  new_admin_token none = none
  new_admin_token (some bytes) = some (crypt.encode_hex bytes)

  abbrev pub session_created : ℕ → Account → Option Bytes → Account × Option Bytes
  session_created now a none = (a, none)
  session_created now a (some token) =
      (record a { sessions = put token (now + admin_session_ttl) a.sessions }, some token)

  unfoldable pub create_admin_session : ℕ → Option Bytes → Account → Account × Option Bytes
  create_admin_session now random a = session_created now a (new_admin_token random)

  abbrev pub loaded_hash : Bytes → Account → Account
  loaded_hash hash a = if is_empty hash then a else record a { password_hash = hash }

  abbrev pub loaded : Option Bytes → Account → Account
  loaded none a = a
  loaded (some content) a = loaded_hash (crypt.trim_space content) a

  -- What cannot be read leaves the password as it is.
  unfoldable pub load_admin_password : Account → Account
  load_admin_password a = if a.has_file then loaded a.file a else a

  abbrev pub saved : Bool → Bytes → Account → Account × Bool
  saved writable hash a =
      if a.has_file
      then if writable
        then (record a { password_hash = hash; file = some (hash ++ 10 ∷ []) }, true)
        else (record a { password_hash = hash }, false)
      else (record a { password_hash = hash }, true)

  abbrev pub password_hashed : Bool → Account → Option Bytes → Account × Bool
  password_hashed writable a none = (a, false)
  password_hashed writable a (some hash) = saved writable hash a

  -- `writable`: the file can be written.
  unfoldable pub set_admin_password : Bool → Bytes → Account → Account × Bool
  set_admin_password writable password a = password_hashed writable a (crypt.generate password)

  unfoldable pub check_admin_credentials : Bytes → Bytes → Account → Bool
  check_admin_credentials user password a =
      bytes_eq user admin_username
      && not (is_empty a.password_hash)
      && crypt.compare a.password_hash password
