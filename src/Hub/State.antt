-- ===== src/Hub/State.antt =====
-- server/data.go, client.go, clientChannel.go, server.go: the messages that the server builds, the
-- objects and the global tables. The JSON package is a parameter.
use nvda_remote_go.Prelude.{
  ℕ, Bytes, Bool, true, false, Option, none, some, List, [], ◌∷◌, ◌++◌, codes, ℤ, pos, update,
  is_empty, bytes_eq, ◌==◌, if◌then◌else◌, ◌||◌,
}

pub record IceServer : Type 0 where
  pub urls : List Bytes
  pub username : Bytes
  pub credential : Bytes

pub record ClientData : Type 0 where
  pub id : ℕ
  pub connection_type : Bytes
  pub capabilities : List Bytes

-- `Data`. A field with its zero value is left out of the JSON text.
pub record Message : Type 0 where
  pub kind : Bytes
  pub channel : Bytes
  pub connection_type : Bytes
  pub version : ℤ
  pub origin : ℕ
  pub key : Bytes
  pub user_id : ℕ
  pub user_ids : List ℕ
  pub clients : List ClientData
  pub client : Option ClientData
  pub error : Bytes
  pub motd : Bytes
  pub force_display : Bool
  pub capabilities : List Bytes
  pub target : ℤ
  pub ice_servers : List IceServer
  pub ttl : ℕ

abbrev pub empty_message : Message
empty_message = record {
  kind = [];
  channel = [];
  connection_type = [];
  version = pos 0;
  origin = 0;
  key = [];
  user_id = 0;
  user_ids = [];
  clients = [];
  client = none;
  error = [];
  motd = [];
  force_display = false;
  capabilities = [];
  target = pos 0;
  ice_servers = [];
  ttl = 0;
}

-- `encoding/json`, as server/jsonFuncs.go calls it.
pub record Json : Type 1 where
  pub Object : Type 0
  pub encode : Message → Option Bytes
  pub decode : Bytes → Option Message
  pub unmarshal : Bytes → Option Object
  pub with_int : Bytes → ℕ → Object → Object
  pub marshal : Object → Option Bytes

abbrev pub conn_type_slave : Bytes
conn_type_slave = codes "slave"

abbrev pub conn_type_master : Bytes
conn_type_master = codes "master"

-- The cases of the source's `switch` on a connection type.
pub data Role : Type 0 where
  master slave other : Role

unfoldable pub role : Bytes → Role
role t =
    if bytes_eq t conn_type_master
    then master
    else if bytes_eq t conn_type_slave
    then slave
    else other

-- `cancelled` is set by the client's `Close`, which cancels its context; `closed` by the goroutine
-- of `listen` that waits for that. `sent` is all that has been put on the channel `sd`.
pub record Client : Type 0 where
  pub connection_type : Bytes
  pub version : ℤ
  pub ip : Bytes
  pub port : ℕ
  pub protocol : Bytes
  pub connected_at : ℕ
  pub last_received : Option ℕ
  pub channel : Option ℕ
  pub authorized : Bool
  pub cancelled : Bool
  pub closed : Bool
  pub capabilities : List Bytes
  pub signal_count : ℕ
  pub signal_window : Option ℕ
  pub sent : List Bytes

-- `usable` is false once `Quit` has set the maps to nil.
pub record Channel : Type 0 where
  pub name : Bytes
  pub password : Bytes
  pub locked : Bool
  pub usable : Bool
  pub all : List ℕ
  pub masters : List ℕ
  pub slaves : List ℕ

pub record Settings : Type 0 where
  pub motd : Bytes
  pub motd_always_display : Bool
  pub send_origin : Bool
  pub screen_share : Bool
  pub turn_urls : List Bytes
  pub turn_secret : Bytes
  pub turn_ttl : ℕ

-- server/blocklist.go
pub record BlockedClient : Type 0 where
  pub ip : Bytes
  pub channel : Bytes
  pub client_id : ℕ
  pub blocked_at : ℕ

-- `panicked` records a write to a nil map, which ends the process.
pub record Hub : Type 0 where
  pub settings : Settings
  pub client : ℕ → Client
  pub registered : List ℕ
  pub last_id : ℕ
  pub channel : ℕ → Channel
  pub next_channel : ℕ
  pub channels : List (Bytes × ℕ)
  pub blocked : List (Bytes × BlockedClient)
  pub panicked : Bool

abbrev pub edit_client : ℕ → (Client → Client) → Hub → Hub
edit_client id f h = record h { client = update h.client id (f (h.client id)) }

abbrev pub edit_channel : ℕ → (Channel → Channel) → Hub → Hub
edit_channel r f h = record h { channel = update h.channel r (f (h.channel r)) }

-- What `Send` does to the client: nothing when it is closed or the message is empty.
unfoldable pub push : Bytes → Client → Client
push b c = if c.closed || is_empty b then c else record c { sent = c.sent ++ b ∷ [] }

unfoldable pub send : ℕ → Bytes → Hub → Hub
send id b h = edit_client id (push b) h

-- The loops that send one message to several clients, all but `skip`.
unfoldable pub send_each : List ℕ → ℕ → Bytes → Hub → Hub
send_each [] skip b h = h
send_each (id ∷ ids) skip b h = send_each ids skip b (if id == skip then h else send id b h)

-- `Encode`, and `Send` if that succeeds.
abbrev pub send_encoded : Option Bytes → ℕ → Hub → Hub
send_encoded none id h = h
send_encoded (some b) id h = send id b h

abbrev pub send_each_encoded : Option Bytes → List ℕ → ℕ → Hub → Hub
send_each_encoded none ids skip h = h
send_each_encoded (some b) ids skip h = send_each ids skip b h

module _ (json : Json) where
  open json use {Object, unmarshal, with_int, marshal}

  abbrev pub remarshal : Bytes → Option Bytes → Bytes × Bool
  remarshal original none = (original, false)
  remarshal original (some b) = (b, true)

  abbrev pub add_to : Bytes → Bytes → ℕ → Option Object → Bytes × Bool
  add_to original key value none = (original, false)
  add_to original key value (some o) = remarshal original (marshal (with_int key value o))

  -- server/jsonFuncs.go `JsonAdd`: the new text, or the old one and an error (`false`).
  unfoldable pub json_add : Bytes → Bytes → ℕ → Bytes × Bool
  json_add msg key value = add_to msg key value (unmarshal msg)
