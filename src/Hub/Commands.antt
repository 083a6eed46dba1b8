-- ===== src/Hub/Commands.antt =====
-- server/commands.go: the commands `join` and `protocol_version`; server/clientChannel.go
-- `getChannelParams`; and the test of server/blocklist.go at joining.
use nvda_remote_go.Prelude.{
  ℕ, ◌+◌, Bytes, Bool, true, false, Option, none, some, [], ◌∷◌, ◌++◌, codes, is_empty, ◌||◌,
  if◌then◌else◌, index, take, drop, length, lookup, positive, ◌==◌, ltb,
}
use nvda_remote_go.Hub.State.{Hub, Message, empty_message, Json, edit_client, send_encoded}
use nvda_remote_go.Hub.Client.{set_connection_type, set_version, cancel}
use nvda_remote_go.Hub.Registry.{find_channel}
use nvda_remote_go.Hub.Membership.{add, add_channel}

-- server/clientChannel.go `getChannelParams`
abbrev pub lock_flag : Bytes
lock_flag = codes "lock_"

abbrev pub password_flag : Bytes
password_flag = codes "__password__"

pub record ChannelParams : Type 0 where
  pub name : Bytes
  pub password : Bytes
  pub locked : Bool

abbrev pub split_password : Bytes → Bool → Option ℕ → ChannelParams
split_password name locked none = record { name = name; password = []; locked = locked }
split_password name locked (some pi) =
    if ltb 0 pi
    then record {
      name = take pi name;
      password = drop (pi + length password_flag) name;
      locked = true;
    }
    else record { name = name; password = []; locked = locked }

abbrev pub starts_here : Option ℕ → Bool
starts_here none = false
starts_here (some i) = i == 0

abbrev pub split_locked : Bytes → ChannelParams
split_locked name = split_password name true (index password_flag name)

unfoldable pub get_channel_params : Bytes → ChannelParams
get_channel_params name =
    if starts_here (index lock_flag name)
    then split_locked (drop (length lock_flag) name)
    else split_password name false (index password_flag name)

-- server/blocklist.go: the key of a block, and the refusal of a join.
unfoldable pub block_key : Bytes → Bytes → Bytes
block_key ip channel = ip ++ 0 ∷ channel

abbrev pub is_some {ℓ} : {A : Type ℓ} → Option A → Bool
is_some none = false
is_some (some a) = true

unfoldable pub is_blocked : Bytes → Bytes → Hub → Bool
is_blocked ip channel h =
    if is_empty ip || is_empty channel
    then false
    else is_some (lookup (block_key ip channel) h.blocked)

module _ (json : Json) where
  abbrev pub error_message : Bytes → Message
  error_message e = record empty_message { kind = codes "error"; error = e }

  -- An answer that reports an error.
  unfoldable pub send_error : Bytes → ℕ → Hub → Hub
  send_error e id h = send_encoded (json.encode (error_message e)) id h

  unfoldable pub join_channel : ℕ → ChannelParams → Option ℕ → Hub → Hub
  join_channel id p none h = add_channel json p.name p.password p.locked id h
  join_channel id p (some r) h = add json r id p.password h

  -- The rest of `join`, once the name has been taken apart.
  unfoldable pub join_with : ℕ → Bytes → ChannelParams → Hub → Hub
  join_with id connection_type p h =
      if is_empty p.name
      then send_error (codes "invalid_parameters") id h
      else if is_blocked (h.client id).ip p.name h
      then edit_client id cancel h
      else let h' = edit_client id (set_connection_type connection_type) h in
        join_channel id p (find_channel p.name h') h'

  abbrev pub join_from : Option ℕ → ℕ → Message → Hub → Hub
  join_from (some r) id m h = send_error (codes "already_joined") id h
  join_from none id m h = join_with id m.connection_type (get_channel_params m.channel) h

  unfoldable pub join : ℕ → Message → Hub → Hub
  join id m h = join_from (h.client id).channel id m h

  abbrev pub set_protocol_version : ℕ → Message → Option ℕ → Hub → Hub
  set_protocol_version id m none h = send_error (codes "invalid_parameters") id h
  set_protocol_version id m (some n) h = edit_client id (set_version m.version) h

  unfoldable pub protocol_version : ℕ → Message → Hub → Hub
  protocol_version id m h = set_protocol_version id m (positive m.version) h
