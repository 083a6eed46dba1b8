-- ===== src/Hub/Channel.antt =====
-- server/clientChannel.go: a channel, who is in it, and what it sends to whom.
use nvda_remote_go.Prelude.{
  ℕ, Bytes, Bool, true, false, Option, none, some, List, [], ◌∷◌, ◌++◌, map, codes, bytes_eq,
  is_empty, not, ◌&&◌, ◌||◌, ◌==◌, if◌then◌else◌, contains, insert, delete, filter, sort_by,
}
use nvda_remote_go.Hub.State.{
  Hub, Channel, ClientData, Message, empty_message, Role, master, slave, other, edit_client,
  edit_channel,
}
use nvda_remote_go.Hub.Client.{clear_channel}
use nvda_remote_go.Hub.Registry.{remove_channel}

-- `locked` with the right password, where there is one; an unlocked channel authorizes everyone.
unfoldable pub authorizes : Bytes → Channel → Bool
authorizes password ch =
    if ch.locked then bytes_eq password ch.password && not (is_empty ch.password) else true

abbrev pub lmotd_slave : Bytes → Channel → Bytes
lmotd_slave password ch =
    if is_empty ch.password
    then codes "."
    else codes " unless they authenticate"
      ++ (if bytes_eq password ch.password
          then codes " with the password " ++ ch.password
          else codes ".")

abbrev pub lmotd_master : Bytes → Channel → Bytes
lmotd_master password ch =
    (if (not (is_empty ch.password) && not (bytes_eq password ch.password)) || is_empty ch.password
      then codes "You won't be able to control any computers connected to this channel."
      else [])
    ++ (if bytes_eq ch.password password && not (is_empty ch.password)
        then codes
            "You are authorized to control any computer connected to this channel. Authorized with password "
          ++ ch.password
        else [])

abbrev pub lmotd_for : Role → Bytes → Channel → Bytes
lmotd_for slave password ch =
    codes "No one will be able to control your computer" ++ lmotd_slave password ch
lmotd_for master password ch = lmotd_master password ch
lmotd_for other password ch = []

unfoldable pub lmotd : Role → Bytes → Bytes → Channel → Bytes
lmotd who name password ch =
    if not ch.locked
    then []
    else codes "This is a locked channel. Name: " ++ name ++ 10 ∷ [] ++ lmotd_for who password ch

unfoldable pub add_to_role : Role → ℕ → Channel → Channel
add_to_role master id ch = record ch { masters = insert id ch.masters }
add_to_role slave id ch = record ch { slaves = insert id ch.slaves }
add_to_role other id ch = ch

unfoldable pub remove_from_role : Role → ℕ → Channel → Channel
remove_from_role master id ch = record ch { masters = delete id ch.masters }
remove_from_role slave id ch = record ch { slaves = delete id ch.slaves }
remove_from_role other id ch = ch

abbrev pub client_data : Hub → ℕ → ClientData
client_data h id = record {
  id = id;
  connection_type = (h.client id).connection_type;
  capabilities = (h.client id).capabilities;
}

unfoldable pub joined_message : ℕ → Bytes → Hub → Message
joined_message id name h = record empty_message {
  kind = codes "client_joined";
  channel = name;
  user_id = id;
  client = some (client_data h id);
}

-- The identifiers of the other members, in increasing order, and what is known of them.
abbrev pub others : ℕ → List ℕ → List ℕ
others id ids = filter (λ cid. not (cid == id)) ids

unfoldable pub welcome_message : ℕ → Channel → Hub → Message
welcome_message id ch h = record empty_message {
  kind = codes "channel_joined";
  channel = ch.name;
  origin = id;
  user_ids = sort_by (λ n. n) (others id ch.all);
  clients = sort_by (λ d. d.id) (map (client_data h) (others id ch.all));
}

abbrev pub both_motds : Bytes → Bytes → Bytes
both_motds local global =
    if is_empty local then global else if is_empty global then local else local ++ 10 ∷ [] ++ global

unfoldable pub motd_message : Bytes → Hub → Message
motd_message local h = record empty_message {
  kind = codes "motd";
  motd = both_motds local h.settings.motd;
  force_display = not (is_empty local) || h.settings.motd_always_display;
}

unfoldable pub left_message : ℕ → Hub → Message
left_message id h = record empty_message {
  kind = codes "client_left";
  user_id = id;
  origin = id;
  client =
      some (record { id = id; connection_type = (h.client id).connection_type; capabilities = [] });
}

-- `Name`, and `FindClientByID`.
unfoldable pub find_client_by_id : ℕ → Channel → Option ℕ
find_client_by_id id ch = if contains id ch.all then some id else none

abbrev pub clear_each : List ℕ → Hub → Hub
clear_each [] h = h
clear_each (id ∷ ids) h = clear_each ids (edit_client id clear_channel h)

unfoldable pub quit : ℕ → Hub → Hub
quit r h = remove_channel (h.channel r).name (
    edit_channel r (λ ch. record ch { usable = false; all = []; masters = []; slaves = [] })
      (clear_each (h.channel r).all h))

abbrev pub is_nil : List ℕ → Bool
is_nil [] = true
is_nil (x ∷ xs) = false

unfoldable pub end_if_empty : ℕ → Hub → Hub
end_if_empty r h = if is_nil (h.channel r).all then quit r h else h
