-- ===== src/Hub/Membership.antt =====
-- server/clientChannel.go and server.go: joining a channel, leaving it, creating it, relaying to it.
use nvda_remote_go.Prelude.{
  ℕ, ◌+◌, Bytes, Bool, true, false, Option, none, some, List, [], ◌∷◌, ◌++◌, codes, is_empty, not,
  ◌&&◌, if◌then◌else◌, contains, delete, put, update,
}
use nvda_remote_go.Hub.State.{
  Hub, Channel, Json, Role, master, slave, other, role, edit_client, edit_channel, send, send_each,
  send_encoded, send_each_encoded,
}
use nvda_remote_go.Hub.Client.{set_authorized, set_channel, clear_channel}
use nvda_remote_go.Hub.Registry.{find_client}
use nvda_remote_go.Hub.Channel.{
  authorizes, lmotd, add_to_role, remove_from_role, joined_message, welcome_message, motd_message,
  left_message, end_if_empty,
}

-- `{"type":"nvda_not_connected"}`
abbrev pub nvda_not_connected : Bytes
nvda_not_connected =
    123 ∷ 34 ∷ codes "type" ++ 34 ∷ 58 ∷ 34 ∷ codes "nvda_not_connected" ++ 34 ∷ 125 ∷ []

abbrev pub client_role : ℕ → Hub → Role
client_role id h = role (h.client id).connection_type

-- The client is entered in the map of all clients, and told its channel.
unfoldable pub enter : ℕ → ℕ → Hub → Hub
enter r id h =
    edit_client id (set_channel (some r)) (edit_channel r (λ ch. record ch { all = id ∷ ch.all }) h)

unfoldable pub set_authorization : ℕ → ℕ → Bytes → Hub → Hub
set_authorization r id password h =
    edit_client id (set_authorized (authorizes password (h.channel r))) h

unfoldable pub enter_role : ℕ → ℕ → Hub → Hub
enter_role r id h = edit_channel r (add_to_role (client_role id h) id) h

unfoldable pub leave : ℕ → ℕ → Hub → Hub
leave r id h = edit_client id clear_channel (
    edit_channel r (λ ch. record ch { all = delete id ch.all })
      (edit_channel r (remove_from_role (client_role id h) id) h))

abbrev pub unregister : ℕ → Hub → Hub
unregister id h = record h { registered = delete id h.registered }

abbrev pub new_channel : Bytes → Bytes → Bool → Channel
new_channel name password locked = record {
  name = name;
  password = password;
  locked = locked;
  usable = true;
  all = [];
  masters = [];
  slaves = [];
}

-- The map that `SendOthers` chooses for a sender.
unfoldable pub audience : Role → Channel → List ℕ
audience master ch = ch.slaves
audience slave ch = ch.masters
audience other ch = ch.all

abbrev pub is_master : Role → Bool
is_master master = true
is_master _ = false

abbrev pub is_nil : List ℕ → Bool
is_nil [] = true
is_nil (x ∷ xs) = false

module _ (json : Json) where
  -- What a client that has just been added is told, and what the others are.
  unfoldable pub announce : ℕ → ℕ → Hub → Hub
  announce r id h =
      send_each_encoded (json.encode (joined_message id (h.channel r).name h)) (h.channel r).all id
        h

  unfoldable pub welcome : ℕ → ℕ → Hub → Hub
  welcome r id h = send_encoded (json.encode (welcome_message id (h.channel r) h)) id h

  abbrev pub send_motd : Bytes → ℕ → Hub → Hub
  send_motd local id h =
      if is_empty h.settings.motd && is_empty local
      then h
      else send_encoded (json.encode (motd_message local h)) id h

  unfoldable pub greet : ℕ → ℕ → Bytes → Hub → Hub
  greet r id password h =
      send_motd (lmotd (client_role id h) (h.channel r).name password (h.channel r)) id h

  -- The part of `Add` that writes to the maps of a channel whose maps are not nil.
  unfoldable pub add_usable : ℕ → ℕ → Bytes → Hub → Hub
  add_usable r id password h =
      let h' = enter_role r id h in
      if contains id (h'.channel r).all
      then h'
      else greet r id password (welcome r id (announce r id (enter r id h')))

  -- `Add`. A write to a nil map panics.
  unfoldable pub add : ℕ → ℕ → Bytes → Hub → Hub
  add r id password h =
      let h' = set_authorization r id password h in
      if (h.channel r).usable then add_usable r id password h' else record h' { panicked = true }

  unfoldable pub announce_left : ℕ → ℕ → Hub → Hub
  announce_left r id h = send_each_encoded (json.encode (left_message id h)) (h.channel r).all id h

  -- `Remove`, with the deferred `EndIfEmpty`.
  unfoldable pub remove : ℕ → ℕ → Hub → Hub
  remove r id h = end_if_empty r (announce_left r id (leave r id h))

  abbrev pub leave_channel : Option ℕ → ℕ → Hub → Hub
  leave_channel none id h = h
  leave_channel (some r) id h = remove r id h

  -- server/server.go `RemoveClient`
  unfoldable pub remove_client : ℕ → Hub → Hub
  remove_client id h =
      if find_client id h then unregister id (leave_channel (h.client id).channel id h) else h

  -- server/server.go `AddChannel`: the creator is added, then the name is entered in the table.
  unfoldable pub add_channel : Bytes → Bytes → Bool → ℕ → Hub → Hub
  add_channel name password locked id h =
      let r = h.next_channel in
      let h' = add r id password (record h {
        channel = update h.channel r (new_channel name password locked);
        next_channel = r + 1;
      }) in
      record h' { channels = put name r h'.channels }

  unfoldable pub send_others : ℕ → Bytes → ℕ → Hub → Hub
  send_others r msg id h =
      let who = client_role id h in
      let clients = audience who (h.channel r) in
      if is_nil clients
      then (if is_master who then send id nvda_not_connected h else h)
      else if is_master who && not (h.client id).authorized
      then h
      else send_each clients id msg h
