-- ===== src/Hub/Receive.antt =====
-- server/server.go `MessageReceived` and `Authorize`, server/commands.go and genKey.go: what happens
-- to a message that a client sends. The random numbers of `gen_key` are a parameter, in decimal.
use nvda_remote_go.Prelude.{
  ℕ, zero, suc, Bytes, Bool, true, false, Option, none, some, codes, bytes_eq, if◌then◌else◌,
}
use nvda_remote_go.Hub.State.{Hub, Message, empty_message, Json, edit_client, send, json_add}
use nvda_remote_go.Hub.Client.{set_capabilities, cancel}
use nvda_remote_go.Hub.Registry.{find_client, find_channel}
use nvda_remote_go.Hub.Membership.{send_others}
use nvda_remote_go.Hub.Commands.{join, protocol_version}
use nvda_remote_go.Hub.Signaling.{filter_capabilities, TurnPlatform}
use nvda_remote_go.Hub.Routing.{handle_screen_share}

abbrev pub is_none {ℓ} : {A : Type ℓ} → Option A → Bool
is_none none = true
is_none (some a) = false

-- The loop of `gen_key`, with the rounds left after this one; `keys` gives the round's number.
unfoldable pub gen_key_from : ℕ → (ℕ → Bytes) → Hub → Bytes
gen_key_from zero keys h = keys zero
gen_key_from (suc n) keys h =
    let rest = gen_key_from n keys h in
    if is_none (find_channel (keys (suc n)) h) then keys (suc n) else rest

unfoldable pub gen_key : (ℕ → Bytes) → Hub → Bytes
gen_key keys h = gen_key_from 19 keys h

module _ (json : Json) where
  abbrev pub answer_key : Bytes → Option Bytes → ℕ → Hub → Hub
  answer_key key none id h = h
  answer_key key (some b) id h = edit_client id cancel (send id b h)

  -- The answer, and the `Close` a second later.
  unfoldable pub generate_key : (ℕ → Bytes) → ℕ → Hub → Hub
  generate_key keys id h =
      let key = gen_key keys h in
      answer_key key (json.encode (record empty_message { kind = codes "generate_key"; key = key }))
        id h

  unfoldable pub capabilities : ℕ → Message → Hub → Hub
  capabilities id m h =
      if h.settings.screen_share
      then edit_client id (set_capabilities (filter_capabilities m.capabilities)) h
      else h

  -- `cmd_exec`: the hub afterwards, and whether the command exists.
  unfoldable pub cmd_exec : (ℕ → Bytes) → ℕ → Message → Hub → Hub × Bool
  cmd_exec keys id m h =
      if bytes_eq m.kind (codes "join")
      then (join json id m h, true)
      else if bytes_eq m.kind (codes "protocol_version")
      then (protocol_version json id m h, true)
      else if bytes_eq m.kind (codes "generate_key")
      then (generate_key keys id h, true)
      else if bytes_eq m.kind (codes "capabilities")
      then (capabilities id m h, true)
      else (h, false)

  abbrev pub exec_decoded : (ℕ → Bytes) → ℕ → Option Message → Hub → Hub × Bool
  exec_decoded keys id none h = (h, false)
  exec_decoded keys id (some m) h = cmd_exec keys id m h

  unfoldable pub authorize : (ℕ → Bytes) → ℕ → Bytes → Hub → Hub × Bool
  authorize keys id msg h = exec_decoded keys id (json.decode msg) h

  -- With `sendOrigin` the message gets its origin, if it is a JSON object.
  unfoldable pub with_origin : ℕ → Bytes → Hub → Bytes
  with_origin id msg h =
      if h.settings.send_origin then (json_add json msg (codes "origin") id).0 else msg

  -- A message that cannot be authorized ends the connection.
  abbrev pub cancel_unless : ℕ → Hub × Bool → Hub
  cancel_unless id (h, true) = h
  cancel_unless id (h, false) = edit_client id cancel h

  module _ (platform : TurnPlatform) where
    abbrev pub relay_unless : ℕ → ℕ → Bytes → Hub × Bool → Hub
    relay_unless r id msg (h, true) = h
    relay_unless r id msg (h, false) = send_others json r (with_origin id msg h) id h

    abbrev pub receive_member : ℕ → (ℕ → Bytes) → ℕ → Bytes → Option ℕ → Hub → Hub
    receive_member now keys id msg none h = cancel_unless id (authorize keys id msg h)
    receive_member now keys id msg (some r) h =
        relay_unless r id msg (handle_screen_share json platform now r id msg h)

    unfoldable pub message_received : ℕ → (ℕ → Bytes) → ℕ → Bytes → Hub → Hub
    message_received now keys id msg h =
        if find_client id h
        then receive_member now keys id msg (h.client id).channel h
        else edit_client id cancel h
