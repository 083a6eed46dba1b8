-- ===== src/Admin/Pages.antt =====
-- server/admin.go: the pages by which the password is defined and a session is opened and closed.
use nvda_remote_go.Prelude.{
  ℕ, Bytes, Bool, Option, none, some, [], codes, ltb, length, bytes_eq, if◌then◌else◌,
}
use nvda_remote_go.Admin.Account.{
  Account, Crypt, admin_password_defined, admin_request_authorized, set_admin_password,
  create_admin_session, check_admin_credentials, delete_admin_session,
}
use nvda_remote_go.Admin.Requests.{
  AdminRequest, Form, AdminReply, dashboard_page, setup_page, login_page, not_found, logged_out,
  http_error, failed_page, redirected, logged_in,
}

abbrev pub admin_min_password_len : ℕ
admin_min_password_len = 8

abbrev dashboard_shown : Account × Bool → Account × AdminReply
dashboard_shown (a, authorized) =
    if authorized then (a, dashboard_page) else (a, redirected (codes "/login"))

unfoldable pub handle_admin_dashboard : ℕ → Bytes → AdminRequest → Account → Account × AdminReply
unfolding admin_password_defined admin_request_authorized
handle_admin_dashboard now admin_path r a =
    if bytes_eq r.path admin_path
    then if admin_password_defined a
      then dashboard_shown (admin_request_authorized now r.cookie a)
      else (a, redirected (codes "/setup"))
    else (a, not_found)

abbrev pub opened_with : Account × Option Bytes → Account × AdminReply
opened_with (a, none) = (a, http_error 500)
opened_with (a, some token) = (a, logged_in token)

module _ (crypt : Crypt) where
  abbrev pub password_set : ℕ → Option Bytes → Account × Bool → Account × AdminReply
  password_set now random (a, ok) =
      if ok then opened_with (create_admin_session crypt now random a) else (a, failed_page 500)

  abbrev pub setup_form : ℕ → Bool → Option Bytes → Option Form → Account → Account × AdminReply
  setup_form now writable random none a = (a, http_error 400)
  setup_form now writable random (some f) a =
      if ltb (length f.password) admin_min_password_len
      then (a, failed_page 400)
      else if bytes_eq f.password f.confirm
      then password_set now random (set_admin_password crypt writable f.password a)
      else (a, failed_page 400)

  -- `writable` and `random` are what the file system and the random source do.
  unfoldable pub handle_admin_setup :
      ℕ → Bool → Option Bytes → AdminRequest → Account → Account × AdminReply
  unfolding admin_password_defined set_admin_password create_admin_session
  handle_admin_setup now writable random r a =
      if admin_password_defined a
      then (a, redirected (codes "/login"))
      else if bytes_eq r.method (codes "POST")
      then setup_form now writable random r.form a
      else (a, setup_page)

  abbrev pub login_form : ℕ → Option Bytes → Option Form → Account → Account × AdminReply
  login_form now random none a = (a, http_error 400)
  login_form now random (some f) a =
      if check_admin_credentials crypt f.username f.password a
      then opened_with (create_admin_session crypt now random a)
      else (a, failed_page 401)

  abbrev pub login_shown : Account × Bool → Account × AdminReply
  login_shown (a, authorized) = if authorized then (a, redirected []) else (a, login_page)

  unfoldable pub handle_admin_login :
      ℕ → Option Bytes → AdminRequest → Account → Account × AdminReply
  unfolding admin_password_defined check_admin_credentials create_admin_session
      admin_request_authorized
  handle_admin_login now random r a =
      if admin_password_defined a
      then if bytes_eq r.method (codes "POST")
        then login_form now random r.form a
        else login_shown (admin_request_authorized now r.cookie a)
      else (a, redirected (codes "/setup"))

abbrev cookie_removed : Option Bytes → Account → Account
cookie_removed none a = a
cookie_removed (some token) a = delete_admin_session token a

unfoldable pub handle_admin_logout : AdminRequest → Account → Account × AdminReply
unfolding delete_admin_session
handle_admin_logout r a = (cookie_removed r.cookie a, logged_out)
