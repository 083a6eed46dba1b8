-- ===== src/Admin/Actions.antt =====
-- server/admin.go: the actions of the dashboard on the hub.
use nvda_remote_go.Prelude.{
  ℕ, Bytes, Bool, Option, none, some, is_empty, ◌||◌, ℤ, positive, if◌then◌else◌,
}
use nvda_remote_go.Hub.State.{Hub}
use nvda_remote_go.Hub.Blocklist.{Blocking, client_not_found, cut_off, block_client_by_id, unblock}
use nvda_remote_go.Admin.Account.{Account}
use nvda_remote_go.Admin.Requests.{
  AdminRequest, Form, AdminReply, http_error, client_blocked, client_unblocked, Folding,
  admin_action_authorized,
}

pub record Office : Type 0 where
  pub account : Account
  pub hub : Hub

-- `strconv.Atoi` and `strings.TrimSpace`
pub record FormText : Type 0 where
  pub atoi : Bytes → Option ℤ
  pub trim_space : Bytes → Bytes

abbrev blocking_reply : Account → Hub × Blocking → Office × AdminReply
blocking_reply a (h, client_not_found) = (record { account = a; hub = h }, http_error 404)
blocking_reply a (h, cut_off e recorded) =
    (record { account = a; hub = h }, client_blocked e recorded)

abbrev unblocking_reply : Account → Bytes → Bytes → Hub × Bool → Office × AdminReply
unblocking_reply a ip channel (h, lifted) =
    if lifted
    then (record { account = a; hub = h }, client_unblocked ip channel)
    else (record { account = a; hub = h }, http_error 404)

abbrev positive_id : Option ℤ → Option ℕ
positive_id none = none
positive_id (some z) = positive z

module _ (text : FormText) where
  abbrev block_by_form : ℕ → Account → Hub → Option ℕ → Office × AdminReply
  block_by_form now a h none = (record { account = a; hub = h }, http_error 400)
  block_by_form now a h (some id) = blocking_reply a (block_client_by_id now id h)

  abbrev pub block_form : ℕ → Account → Hub → Option Form → Office × AdminReply
  block_form now a h none = (record { account = a; hub = h }, http_error 400)
  block_form now a h (some f) =
      block_by_form now a h (positive_id (text.atoi (text.trim_space f.id)))

  abbrev pub unblock_form : Account → Hub → Option Form → Office × AdminReply
  unblock_form a h none = (record { account = a; hub = h }, http_error 400)
  unblock_form a h (some f) =
      if is_empty (text.trim_space f.ip) || is_empty (text.trim_space f.channel)
      then (record { account = a; hub = h }, http_error 400)
      else unblocking_reply a (text.trim_space f.ip) (text.trim_space f.channel)
          (unblock (text.trim_space f.ip) (text.trim_space f.channel) h)

  -- The action is taken unless the request was refused.
  abbrev pub unless_refused :
      (Account → Office × AdminReply) → Hub → Account × Option AdminReply → Office × AdminReply
  unless_refused act h (a, none) = act a
  unless_refused act h (a, some refusal) = (record { account = a; hub = h }, refusal)

  module _ (folding : Folding) where
    unfoldable pub handle_admin_block_client : ℕ → AdminRequest → Office → Office × AdminReply
    unfolding admin_action_authorized block_client_by_id
    handle_admin_block_client now r o =
        unless_refused (λ a. block_form now a o.hub r.form) o.hub
          (admin_action_authorized folding now r o.account)

    unfoldable pub handle_admin_unblock_client : ℕ → AdminRequest → Office → Office × AdminReply
    unfolding admin_action_authorized unblock
    handle_admin_unblock_client now r o =
        unless_refused (λ a. unblock_form a o.hub r.form) o.hub
          (admin_action_authorized folding now r o.account)
