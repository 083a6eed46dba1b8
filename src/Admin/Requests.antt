-- ===== src/Admin/Requests.antt =====
-- server/admin.go: what the handlers of the dashboard read of a request, and what they send back.
use nvda_remote_go.Prelude.{
  ℕ, Bytes, Bool, true, false, Option, none, some, codes, not, ◌&&◌, is_empty, bytes_eq, ◌++◌,
  if◌then◌else◌,
}
use nvda_remote_go.Hub.State.{BlockedClient}
use nvda_remote_go.Admin.Account.{Account, admin_request_authorized}

pub record Form : Type 0 where
  pub id : Bytes
  pub ip : Bytes
  pub channel : Bytes
  pub username : Bytes
  pub password : Bytes
  pub confirm : Bytes

-- `form` is what `ParseForm` gives.
pub record AdminRequest : Type 0 where
  pub method : Bytes
  pub path : Bytes
  pub cookie : Option Bytes
  pub fetch_site : Bytes
  pub origin : Bytes
  pub host : Bytes
  pub form : Option Form

-- A page, an error with its status, a redirection below the dashboard's path, a redirection with a
-- new session's cookie or with the cookie removed, and the results of the two actions.
pub data AdminReply : Type 0 where
  dashboard_page setup_page login_page not_found logged_out : AdminReply
  http_error : ℕ → AdminReply
  failed_page : ℕ → AdminReply
  redirected : Bytes → AdminReply
  logged_in : Bytes → AdminReply
  client_blocked : BlockedClient → Bool → AdminReply
  client_unblocked : Bytes → Bytes → AdminReply

-- `strings.EqualFold`
pub record Folding : Type 0 where
  pub equal_fold : Bytes → Bytes → Bool

module _ (folding : Folding) where
  -- The headers say that the request comes from the dashboard's own pages.
  unfoldable pub is_same_origin : AdminRequest → Bool
  is_same_origin r =
      if not (is_empty r.fetch_site) && not (bytes_eq r.fetch_site (codes "same-origin"))
      then false
      else if is_empty r.origin
      then true
      else folding.equal_fold r.origin (codes "https://" ++ r.host)

  abbrev pub origin_checked : AdminRequest → Account × Bool → Account × Option AdminReply
  origin_checked r (a, authorized) =
      if authorized
      then if is_same_origin r then (a, none) else (a, some (http_error 403))
      else (a, some (http_error 401))

  -- The reply that refuses the request, if it is refused.
  unfoldable pub admin_action_authorized : ℕ → AdminRequest → Account → Account × Option AdminReply
  unfolding is_same_origin admin_request_authorized
  admin_action_authorized now r a =
      if bytes_eq r.method (codes "POST")
      then origin_checked r (admin_request_authorized now r.cookie a)
      else (a, some (http_error 405))
