-- ===== src/Hub/Blocklist.antt =====
-- server/blocklist.go: the machines that the administrator refused, by address and channel. The
-- copy that the history database keeps of the list is left out.
use nvda_remote_go.Prelude.{
  ℕ, Bytes, Bool, true, false, Option, none, some, List, [], ◌∷◌, not, ◌&&◌, ◌==◌, ltb,
  if◌then◌else◌, is_empty, bytes_eq, lookup, erase, put, length,
}
use nvda_remote_go.Hub.State.{Hub, BlockedClient, edit_client}
use nvda_remote_go.Hub.Client.{cancel}
use nvda_remote_go.Hub.Commands.{block_key, is_some}

-- server/server.go `snapshotClients`
unfoldable pub snapshot_clients : Hub → List ℕ × ℕ
snapshot_clients h = (h.registered, length h.channels)

abbrev pub find_in : ℕ → List ℕ → Option ℕ
find_in id [] = none
find_in id (k ∷ ks) = if k == id then some k else find_in id ks

-- `findClientByID`, among all clients.
unfoldable pub find_registered : ℕ → Hub → Option ℕ
unfolding snapshot_clients
find_registered id h = find_in id (snapshot_clients h).0

abbrev pub channel_name : Option ℕ → Hub → Bytes
channel_name none h = []
channel_name (some r) h = (h.channel r).name

abbrev pub blocked_entry : ℕ → ℕ → Hub → BlockedClient
blocked_entry now id h = record {
  ip = (h.client id).ip;
  channel = channel_name (h.client id).channel h;
  client_id = id;
  blocked_at = now;
}

-- The entry that is returned, and whether it was recorded; or `errClientNotFound`.
pub data Blocking : Type 0 where
  client_not_found : Blocking
  cut_off : BlockedClient → Bool → Blocking

abbrev pub record_block : BlockedClient → Hub → Hub
record_block e h = record h { blocked = put (block_key e.ip e.channel) e h.blocked }

abbrev pub block_entry : BlockedClient → ℕ → Hub → Hub × Blocking
block_entry e id h =
    if is_empty e.channel
    then (edit_client id cancel h, cut_off e false)
    else (edit_client id cancel (record_block e h), cut_off e true)

abbrev pub block_found : ℕ → Option ℕ → Hub → Hub × Blocking
block_found now none h = (h, client_not_found)
block_found now (some id) h = block_entry (blocked_entry now id h) id h

unfoldable pub block_client_by_id : ℕ → ℕ → Hub → Hub × Blocking
block_client_by_id now id h = block_found now (find_registered id h) h

-- The hub afterwards, and whether anything changed.
unfoldable pub unblock : Bytes → Bytes → Hub → Hub × Bool
unblock ip channel h =
    let key = block_key ip channel in
    if is_some (lookup key h.blocked)
    then (record h { blocked = erase key h.blocked }, true)
    else (h, false)

unfoldable pub table_of :
    List BlockedClient → List (Bytes × BlockedClient) → List (Bytes × BlockedClient)
table_of [] table = table
table_of (e ∷ es) table = table_of es (put (block_key e.ip e.channel) e table)

unfoldable pub replace_block_list : List BlockedClient → Hub → Hub
unfolding table_of
replace_block_list entries h = record h { blocked = table_of entries [] }

-- `<` on strings.
unfoldable pub bytes_less : Bytes → Bytes → Bool
bytes_less s [] = false
bytes_less [] (y ∷ t) = true
bytes_less (x ∷ s) (y ∷ t) = let rest = bytes_less s t in if x == y then rest else ltb x y

-- The order of `blockedClients`: most recent first, then by address and channel.
unfoldable pub is_listed_before : BlockedClient → BlockedClient → Bool
unfolding bytes_less
is_listed_before a b =
    if a.blocked_at == b.blocked_at
    then (if bytes_eq a.ip b.ip then bytes_less a.channel b.channel else bytes_less a.ip b.ip)
    else ltb b.blocked_at a.blocked_at

unfoldable pub list_entry : BlockedClient → List BlockedClient → List BlockedClient
unfolding is_listed_before
list_entry e [] = e ∷ []
list_entry e (x ∷ xs) =
    let rest = list_entry e xs in if is_listed_before x e then x ∷ rest else e ∷ x ∷ xs

abbrev pub list_entries : List (Bytes × BlockedClient) → List BlockedClient
list_entries [] = []
list_entries ((k, e) ∷ table) = list_entry e (list_entries table)

unfoldable pub blocked_clients : Hub → List BlockedClient
blocked_clients h = list_entries h.blocked

-- Whether a connection is refused before anything is known of it, given whether the dashboard is
-- enabled and its password defined.
unfoldable pub connection_refusal : Bool → Bool → Bool
connection_refusal admin_enabled password_defined = admin_enabled && not password_defined
