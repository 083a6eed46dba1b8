-- ===== src/Admin/Guard.antt =====
-- server/admin.go: what the dashboard does for a request that is not the administrator's.
use nvda_remote_go.Prelude.{
  ℕ, ◌≡◌, refl, Bytes, Bool, true, false, Option, none, some, ◌&&◌, codes, bytes_eq, leb, length,
  ltb, not, arith, Bool-cases, inl, inr,
}
use nvda_remote_go.Hub.State.{Hub}
use nvda_remote_go.Admin.Account.{
  Account, Crypt, admin_password_defined, admin_request_authorized, check_admin_credentials,
}
use nvda_remote_go.Admin.Requests.{
  AdminRequest, Form, AdminReply, logged_in, http_error, Folding, is_same_origin,
  admin_action_authorized, origin_checked,
}
use nvda_remote_go.Admin.Actions.{
  Office, FormText, block_form, unblock_form, unless_refused, handle_admin_block_client,
  handle_admin_unblock_client,
}
use nvda_remote_go.Admin.Pages.{
  handle_admin_login, handle_admin_setup, login_form, login_shown, setup_form,
}

module _ (text : FormText) (folding : Folding) (now : ℕ) (r : AdminRequest) where
  origin_checked-refused :
      (x : Account × Bool)
      → (x.1 && is_same_origin folding r) ≡ false
      → (e : AdminReply) × ((origin_checked folding r x).1 ≡ some e)
  origin_checked-refused (a, true) h = (http_error 403, rw h refl)
  origin_checked-refused (a, false) h = (http_error 401, refl)

  unless_refused-hub :
      (act : Account → Office × AdminReply) (h : Hub) (x : Account × Option AdminReply)
      (e : AdminReply)
      → x.1 ≡ some e
      → (unless_refused text act h x).0.hub ≡ h
  unless_refused-hub act h (a, none) e p = cc
  unless_refused-hub act h (a, some d) e p = refl

  action_refused :
      (a : Account)
      → (bytes_eq r.method (codes "POST")
          && ((admin_request_authorized now r.cookie a).1 && is_same_origin folding r))
        ≡ false
      → (e : AdminReply) × ((admin_action_authorized folding now r a).1 ≡ some e)
  unfolding admin_action_authorized
  action_refused a h = elim (Bool-cases (bytes_eq r.method (codes "POST"))) [
    | inl post ↦
        rw post (origin_checked-refused (admin_request_authorized now r.cookie a) (rw post at h))
    | inr other ↦ (http_error 405, rw other refl)
  ]

  -- Neither action changes the hub unless the request is a POST, its cookie is that of a session
  -- that is valid, and its headers come from the dashboard's own pages.
  pub actions-unauthorized :
      (o : Office)
      → (bytes_eq r.method (codes "POST")
          && ((admin_request_authorized now r.cookie o.account).1 && is_same_origin folding r))
        ≡ false
      → ((handle_admin_block_client text folding now r o).0.hub ≡ o.hub)
        × ((handle_admin_unblock_client text folding now r o).0.hub ≡ o.hub)
  unfolding handle_admin_block_client handle_admin_unblock_client
  actions-unauthorized o h =
      let (e, refused) = action_refused o.account h in
      (
        unless_refused-hub (λ a. block_form text now a o.hub r.form) o.hub
            (admin_action_authorized folding now r o.account) e refused,
        unless_refused-hub (λ a. unblock_form text a o.hub r.form) o.hub
            (admin_action_authorized folding now r o.account) e refused,
      )

module _ (crypt : Crypt) (now : ℕ) (writable : Bool) (random : Option Bytes) (r : AdminRequest)
    (a : Account) where
  abbrev form_credentials : Option Form → Bool
  form_credentials none = false
  form_credentials (some f) = check_admin_credentials crypt f.username f.password a

  abbrev chosen_password : Option Form → Bool
  chosen_password none = false
  chosen_password (some f) = leb 8 (length f.password) && bytes_eq f.password f.confirm

  -- The form of the request has the administrator's name and password.
  abbrev pub has_credentials : Bool
  has_credentials = form_credentials r.form

  -- The form of the request has a password of at least eight bytes, twice.
  abbrev pub has_new_password : Bool
  has_new_password = chosen_password r.form

  -- Whether the reply opens a session.
  abbrev pub opens_session : AdminReply → Bool
  opens_session (logged_in token) = true
  opens_session _ = false

  login_form-refused :
      (f : Option Form)
      → form_credentials f ≡ false
      → ((login_form crypt now random f a).0 ≡ a)
        × (opens_session (login_form crypt now random f a).1 ≡ false)
  login_form-refused none h = (refl, refl)
  login_form-refused (some f) h = rw h (refl, refl)

  setup_form-refused :
      (f : Option Form)
      → chosen_password f ≡ false
      → ((setup_form crypt now writable random f a).0 ≡ a)
        × (opens_session (setup_form crypt now writable random f a).1 ≡ false)
  setup_form-refused none h = (refl, refl)
  setup_form-refused (some f) h = elim (Bool-cases (ltb (length f.password) 8)) [
    | inl short ↦ rw short (refl, refl)
    | inr long ↦
        let differ : bytes_eq f.password f.confirm ≡ false = ground (arith, h, long) in
        rw (long, differ) (refl, refl)
  ]

  login_shown-refused : (x : Account × Bool) → opens_session (login_shown crypt x).1 ≡ false
  login_shown-refused (b, true) = refl
  login_shown-refused (b, false) = refl

  -- The login page opens a session only for a form with the administrator's name and the password,
  -- which must be defined.
  pub login-guarded :
      (admin_password_defined a && has_credentials) ≡ false
      → opens_session (handle_admin_login crypt now random r a).1 ≡ false
  unfolding handle_admin_login
  login-guarded h = elim (Bool-cases (admin_password_defined a)) [
    | inr undefined ↦ rw undefined refl
    | inl defined ↦ elim (Bool-cases (bytes_eq r.method (codes "POST"))) [
      | inl post ↦ rw (defined, post) (login_form-refused r.form (rw defined at h)).1
      | inr other ↦
          rw (defined, other) (login_shown-refused (admin_request_authorized now r.cookie a))
    ]
  ]

  -- The setup page opens no session and leaves the password and the sessions alone, unless no
  -- password is defined yet and the request is a POST of a password of at least eight bytes, twice.
  pub setup-guarded :
      (not (admin_password_defined a) && (bytes_eq r.method (codes "POST") && has_new_password))
        ≡ false
      → (opens_session (handle_admin_setup crypt now writable random r a).1 ≡ false)
        × ((handle_admin_setup crypt now writable random r a).0 ≡ a)
  unfolding handle_admin_setup
  setup-guarded h = elim (Bool-cases (admin_password_defined a)) [
    | inl defined ↦ rw defined (refl, refl)
    | inr first ↦ elim (Bool-cases (bytes_eq r.method (codes "POST"))) [
      | inl post ↦
          let refused = setup_form-refused r.form (rw (first, post) at h) in
          rw (first, post) (refused.1, refused.0)
      | inr other ↦ rw (first, other) (refl, refl)
    ]
  ]
