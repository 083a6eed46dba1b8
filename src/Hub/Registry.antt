-- ===== src/Hub/Registry.antt =====
-- server/server.go: the tables of clients and of channels.
use nvda_remote_go.Prelude.{
  ℕ, ◌+◌, Bytes, Bool, Option, none, some, contains, insert, lookup, erase, update,
}
use nvda_remote_go.Hub.State.{Hub, Client}

-- The next identifier is given to a new client, which is registered under it.
unfoldable pub add_client : Client → Hub → Hub
add_client c h = record h {
  last_id = h.last_id + 1;
  client = update h.client (h.last_id + 1) c;
  registered = insert (h.last_id + 1) h.registered;
}

unfoldable pub find_client : ℕ → Hub → Bool
find_client id h = contains id h.registered

unfoldable pub find_channel : Bytes → Hub → Option ℕ
find_channel name h = lookup name h.channels

-- `RemoveChannel`: a name that is not in the table is left alone, and so is the table.
abbrev pub remove_found : Bytes → Option ℕ → Hub → Hub
remove_found name none h = h
remove_found name (some r) h = record h { channels = erase name h.channels }

unfoldable pub remove_channel : Bytes → Hub → Hub
remove_channel name h = remove_found name (find_channel name h) h
