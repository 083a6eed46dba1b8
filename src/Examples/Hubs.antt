-- ===== src/Examples/Hubs.antt =====
-- A hub with a slave that controls the channel and a master that has not given its password. The
-- JSON package is a stand-in that reads every text as a command `join` of that channel.
use nvda_remote_go.Prelude.{
  ◌≡◌, refl, Bytes, true, false, none, some, List, [], ◌∷◌, codes, bytes_eq, arith, pos, not, ◌==◌,
  ◌&&◌, contains, lookup, if◌then◌else◌,
}
use nvda_remote_go.Hub.State.{Hub, Client, Channel, Settings, Json, empty_message, role, push}
use nvda_remote_go.Hub.Signaling.{TurnPlatform}
use nvda_remote_go.Hub.Membership.{
  send_others, is_nil, is_master, nvda_not_connected, audience, client_role,
}
use nvda_remote_go.Hub.Delivery.{mutes, client-send_others}
use nvda_remote_go.Hub.Invariant.{IsConsistent}
use nvda_remote_go.Hub.Traffic.{Event, connects, receives, disconnects}

abbrev pub toy : Json
toy = record {
  Object = Bytes;
  encode = λ m. some m.kind;
  decode = λ b.
      some (record empty_message {
        kind = codes "join";
        channel = b;
        connection_type = codes "slave";
      });
  unmarshal = λ b. some b;
  with_int = λ key n o. n ∷ o;
  marshal = λ o. some o;
}

abbrev pub turn : TurnPlatform
turn = record { sign = λ secret name. name; itoa = λ n. n ∷ [] }

abbrev settings : Settings
settings = record {
  motd = [];
  motd_always_display = false;
  send_origin = true;
  screen_share = true;
  turn_urls = [];
  turn_secret = [];
  turn_ttl = 3600;
}

abbrev pub newcomer : Client
newcomer = record {
  connection_type = [];
  version = pos 0;
  ip = codes "10.0.0.1";
  port = 5;
  protocol = codes "tls";
  connected_at = 0;
  last_received = none;
  channel = none;
  authorized = false;
  cancelled = false;
  closed = false;
  capabilities = [];
  signal_count = 0;
  signal_window = none;
  sent = [];
}

abbrev pub unused : Channel
unused = record {
  name = [];
  password = [];
  locked = false;
  usable = false;
  all = [];
  masters = [];
  slaves = [];
}

abbrev pub empty_hub : Hub
empty_hub = record {
  settings = settings;
  client = λ id. newcomer;
  registered = [];
  last_id = 0;
  channel = λ r. unused;
  next_channel = 0;
  channels = [];
  blocked = [];
  panicked = false;
}

pub empty_hub-IsConsistent : IsConsistent empty_hub
unfolding lookup
empty_hub-IsConsistent = record {
  tidy = λ r. record {
    all_once = tt;
    masters_once = tt;
    slaves_once = tt;
    members = λ j. refl;
    masters = λ j. refl;
    slaves = λ j. refl;
  };
  named = λ name r e. ground arith;
  listed = λ r e. ground arith;
  known = λ j e. refl;
  numbered = λ j e. refl;
  registered_once = tt;
  alive = refl;
}

abbrev events : List Event
events =
    connects newcomer refl
    ∷ connects newcomer refl
    ∷ receives 1 (λ n. n ∷ []) 1 (codes "room")
    ∷ receives 2 (λ n. n ∷ []) 2 (codes "lock_room")
    ∷ receives 3 (λ n. n ∷ []) 1 (codes "{}")
    ∷ disconnects 1
    ∷ disconnects 2
    ∷ []

abbrev pub locked_hub : Hub
locked_hub = record empty_hub {
  registered = 1 ∷ 2 ∷ [];
  client = λ id.
      if id == 2
      then record newcomer { connection_type = codes "master"; channel = some 0 }
      else record newcomer { connection_type = codes "slave"; channel = some 0; authorized = true };
  channel = λ r. record unused {
    locked = true;
    usable = true;
    all = 1 ∷ 2 ∷ [];
    masters = 2 ∷ [];
    slaves = 1 ∷ [];
  };
}

client-send_others_example : (send_others toy 0 (codes "key") 1 locked_hub).client 2 ≡ (
    if contains 2 (audience (client_role 1 locked_hub) (locked_hub.channel 0))
      && not (2 == 1)
      && not (mutes (client_role 1 locked_hub) (locked_hub.client 1))
    then push (codes "key") (locked_hub.client 2)
    else if is_nil (audience (client_role 1 locked_hub) (locked_hub.channel 0))
        && is_master (client_role 1 locked_hub)
        && 2 == 1
    then push nvda_not_connected (locked_hub.client 2)
    else locked_hub.client 2)
unfolding role audience bytes_eq
client-send_others_example = client-send_others toy 0 (codes "key") 1 locked_hub 2 (refl, tt)
