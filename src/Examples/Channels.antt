-- ===== src/Examples/Channels.antt =====
-- Joining, blocking and signaling in the hub of a slave and a master that has not given its
-- password, and the race between a join and the last member's leaving.
use nvda_remote_go.Prelude.{
  ◌≡◌, ◌≤◌, refl, true, some, [], ◌∷◌, codes, arith, pos, not, ◌==◌, ◌&&◌, ◌||◌, contains,
  if◌then◌else◌, bytes_eq, bytes_eq_iff, is_empty, index, lookup, positive, has_prefix,
}
use nvda_remote_go.Hub.State.{
  Hub, Channel, BlockedClient, Message, empty_message, edit_client, role, push, json_add,
}
use nvda_remote_go.Hub.Client.{cancel, allow_signaling}
use nvda_remote_go.Hub.Membership.{add, remove}
use nvda_remote_go.Hub.Commands.{join, get_channel_params, is_blocked}
use nvda_remote_go.Hub.Signaling.{cap_screen_share}
use nvda_remote_go.Hub.Routing.{route_signaling}
use nvda_remote_go.Hub.Blocklist.{block_client_by_id, unblock, replace_block_list}
use nvda_remote_go.Hub.Blocking.{
  lists, is_blocked-unblock, is_blocked-replace_block_list, join-block_client_by_id,
}
use nvda_remote_go.Hub.Addressing.{takes_part, is_target, client-route_signaling}
use nvda_remote_go.Hub.Screening.{count_allowed, count_allowed-interval}
use nvda_remote_go.Hub.Authorization.{join-authorized}
use nvda_remote_go.Hub.Race.{add-remove}
use nvda_remote_go.Hub.Invariant.{IsConsistent}
use nvda_remote_go.Examples.Hubs.{unused, unused, toy, newcomer, locked_hub, empty_hub}

-- Client 3, at the same address, is in no channel.
abbrev waiting_hub : Hub
waiting_hub = record locked_hub {
  registered = 1 ∷ 2 ∷ 3 ∷ [];
  client = λ id. if id == 3 then newcomer else locked_hub.client id;
  channel = λ r. record (locked_hub.channel r) { name = codes "room" };
}

abbrev asks : Message
asks = record empty_message { kind = codes "join"; channel = codes "lock_room" }

join-block_client_by_id_example :
    join toy 3 asks (block_client_by_id 5 1 waiting_hub).0
    ≡ edit_client 3 cancel (block_client_by_id 5 1 waiting_hub).0
unfolding get_channel_params index has_prefix
join-block_client_by_id_example =
    join-block_client_by_id toy 5 1 3 asks waiting_hub refl refl refl refl refl refl refl

abbrev entry : BlockedClient
entry = record { ip = codes "10.0.0.1"; channel = codes "room"; client_id = 1; blocked_at = 5 }

is_blocked-replace_block_list_example :
    is_blocked (codes "10.0.0.1") (codes "room") (replace_block_list (entry ∷ []) empty_hub) ≡ (
      not (is_empty (codes "10.0.0.1"))
      && not (is_empty (codes "room"))
      && lists (codes "10.0.0.1") (codes "room") (entry ∷ []))
is_blocked-replace_block_list_example =
    is_blocked-replace_block_list (codes "10.0.0.1") (codes "room") (entry ∷ []) empty_hub refl refl

is_blocked-unblock_example :
    is_blocked
      (codes "10.0.0.1")
      (codes "room")
      (unblock (codes "10.0.0.1") (codes "room") (replace_block_list (entry ∷ []) empty_hub)).0
    ≡ (not
          (bytes_eq (codes "10.0.0.1") (codes "10.0.0.1") && bytes_eq (codes "room") (codes "room"))
        && is_blocked (codes "10.0.0.1") (codes "room") (replace_block_list (entry ∷ []) empty_hub))
is_blocked-unblock_example =
    is_blocked-unblock (codes "10.0.0.1") (codes "room") (codes "10.0.0.1") (codes "room")
      (replace_block_list (entry ∷ []) empty_hub) refl refl

-- Both have declared screen sharing, and the master is authorized.
abbrev sharing_hub : Hub
sharing_hub = record locked_hub {
  client = λ id. record (locked_hub.client id) {
    capabilities = cap_screen_share ∷ [];
    authorized = true;
  };
}

abbrev offer : Message
offer = record empty_message { kind = codes "webrtc_offer"; target = pos 2 }

client-route_signaling_example :
    (route_signaling toy 5 0 1 offer (codes "sdp") sharing_hub).client 2 ≡ (
      if (allow_signaling 5 (sharing_hub.client 1)).1
        && takes_part (sharing_hub.client 1)
        && is_target 2 (positive offer.target)
        && contains 2 (sharing_hub.channel 0).all
        && takes_part (sharing_hub.client 2)
        && (json_add toy (codes "sdp") (codes "origin") 1).1
      then push (json_add toy (codes "sdp") (codes "origin") 1).0 (sharing_hub.client 2)
      else sharing_hub.client 2)
client-route_signaling_example =
    client-route_signaling toy 1 2 5 0 offer (codes "sdp") sharing_hub refl

count_allowed-interval_example : count_allowed (5 ∷ 6 ∷ 7 ∷ []) newcomer ≤ 500
count_allowed-interval_example = count_allowed-interval 5 (5 ∷ 6 ∷ 7 ∷ []) newcomer refl

-- Client 1 alone in its channel.
abbrev lonely_hub : Hub
lonely_hub = record locked_hub {
  channel = λ r. record (locked_hub.channel r) { all = 1 ∷ []; masters = [] };
}

add-remove_example : (add toy 0 3 [] (remove toy 0 1 lonely_hub)).panicked ≡ true
add-remove_example = add-remove toy 0 1 3 [] lonely_hub refl

abbrev room : Channel
room = record {
  name = codes "room";
  password = codes "pw";
  locked = true;
  usable = true;
  all = 1 ∷ [];
  masters = [];
  slaves = 1 ∷ [];
}

-- Client 1 is in the locked channel as a slave, and client 2 in none.
abbrev prepared_hub : Hub
prepared_hub = record empty_hub {
  registered = 1 ∷ 2 ∷ [];
  last_id = 2;
  next_channel = 1;
  client = λ id.
      if id == 1
      then record newcomer { connection_type = codes "slave"; channel = some 0 }
      else newcomer;
  channel = λ r. if r == 0 then room else unused;
  channels = (codes "room", 0) ∷ [];
}

prepared_hub-IsConsistent : IsConsistent prepared_hub
unfolding lookup role bytes_eq
prepared_hub-IsConsistent = record {
  tidy = λ r. record {
    all_once = ground arith;
    masters_once = ground arith;
    slaves_once = ground arith;
    members = λ j. ground arith;
    masters = λ j. ground arith;
    slaves = λ j. ground arith;
  };
  named = λ name r e. ground (arith, e, bytes_eq_iff (codes "room") name);
  listed = λ r e. ground (arith, e);
  known = λ j e. ground (arith, e);
  numbered = λ j e. ground arith;
  registered_once = ground arith;
  alive = refl;
}

abbrev asks_to_control : Message
asks_to_control = record asks { connection_type = codes "master" }

join-authorized_example :
    let h' = join toy 2 asks_to_control prepared_hub in
    ((h'.client 2).channel ≡ (if 2 == 2 then some 0 else (prepared_hub.client 2).channel))
    × ((h'.client 2).authorized ≡ (
        if 2 == 2
        then not (prepared_hub.channel 0).locked
          || bytes_eq
              (get_channel_params asks_to_control.channel).password
              (prepared_hub.channel 0).password
            && not (is_empty (prepared_hub.channel 0).password)
        else (prepared_hub.client 2).authorized))
    × ((h'.client 2).connection_type ≡ (
        if 2 == 2
        then asks_to_control.connection_type
        else (prepared_hub.client 2).connection_type))
unfolding get_channel_params index has_prefix is_blocked lookup bytes_eq
join-authorized_example =
    join-authorized toy 2 asks_to_control 0 prepared_hub prepared_hub-IsConsistent refl refl refl
      refl 2
