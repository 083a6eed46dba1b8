-- ===== src/Hub/Received.antt =====
-- A message that a client sends, and what it leaves of the tables: server/client.go `listen`,
-- server/commands.go.
use nvda_remote_go.Prelude.{
  ℕ, ◌≡◌, refl, Bytes, Bool, true, false, Option, none, some, is_empty, arith, if◌then◌else◌,
  contains, inl, inr, Bool-cases,
}
use nvda_remote_go.Hub.State.{Hub, Message, Json, edit_client}
use nvda_remote_go.Hub.Client.{set_connection_type}
use nvda_remote_go.Hub.Registry.{find_client, find_channel}
use nvda_remote_go.Hub.Commands.{
  ChannelParams, join_channel, join_with, join_from, join, is_blocked,
}
use nvda_remote_go.Hub.Signaling.{TurnPlatform}
use nvda_remote_go.Hub.Receive.{
  cmd_exec, exec_decoded, authorize, cancel_unless, relay_unless, receive_member, message_received,
}
use nvda_remote_go.Hub.Silent.{send_others-SameButSent}
use nvda_remote_go.Hub.Invariant.{IsConsistent, SameButSent-IsConsistent, SamePlaces-IsConsistent}
use nvda_remote_go.Hub.Consistency.{add-IsConsistent, add_channel-IsConsistent}
use nvda_remote_go.Hub.Quiet.{
  cancel-SamePlaces, send_error-SamePlaces, handle_screen_share-SamePlaces,
  protocol_version-SamePlaces, generate_key-SamePlaces, capabilities-SamePlaces,
}

-- A client in no channel may change its type.
pub retype-IsConsistent :
    (id : ℕ) (t : Bytes) (h : Hub)
    → IsConsistent h
    → (h.client id).channel ≡ none
    → IsConsistent (edit_client id (set_connection_type t) h)
unfolding set_connection_type
retype-IsConsistent id t h v free = record {
  tidy = λ q.
      let y = v.tidy q in
      record {
        all_once = y.all_once;
        masters_once = y.masters_once;
        slaves_once = y.slaves_once;
        members = λ j. ground (arith, y.members j);
        masters = λ j. ground (arith, y.masters j, free);
        slaves = λ j. ground (arith, y.slaves j, free);
      };
  named = v.named;
  listed = v.listed;
  known = λ j e. ground (arith, v.known j);
  numbered = v.numbered;
  registered_once = v.registered_once;
  alive = v.alive;
}

module _ (json : Json) (id : ℕ) where
  join_channel-IsConsistent :
      (p : ChannelParams) (o : Option ℕ) (h : Hub)
      → IsConsistent h
      → contains id h.registered ≡ true
      → (h.client id).channel ≡ none
      → find_channel p.name h ≡ o
      → IsConsistent (join_channel json id p o h)
  unfolding join_channel find_channel
  join_channel-IsConsistent p none h v present free e =
      add_channel-IsConsistent id p.name p.password h v present free p.locked e json
  join_channel-IsConsistent p (some r) h v present free e =
      add-IsConsistent id p.name p.password h v present free r e json

  join_with-IsConsistent :
      (t : Bytes) (p : ChannelParams) (h : Hub)
      → IsConsistent h
      → contains id h.registered ≡ true
      → (h.client id).channel ≡ none
      → IsConsistent (join_with json id t p h)
  unfolding join_with
  join_with-IsConsistent t p h v present free = elim (Bool-cases (is_empty p.name)) [
    | inl empty ↦ rw empty (SamePlaces-IsConsistent (send_error-SamePlaces json _ id h) v)
    | inr named ↦ elim (Bool-cases (is_blocked (h.client id).ip p.name h)) [
      | inl blocked ↦ rw (named, blocked) (SamePlaces-IsConsistent (cancel-SamePlaces id h) v)
      | inr open_to ↦
          rw (named, open_to)
            (join_channel-IsConsistent p _ (edit_client id (set_connection_type t) h)
              (retype-IsConsistent id t h v free) present
              (unfold set_connection_type in ground arith) refl)
    ]
  ]

  join_from-IsConsistent :
      (m : Message) (o : Option ℕ) (h : Hub)
      → IsConsistent h
      → contains id h.registered ≡ true
      → (h.client id).channel ≡ o
      → IsConsistent (join_from json o id m h)
  join_from-IsConsistent m none h v present free =
      join_with-IsConsistent m.connection_type _ h v present free
  join_from-IsConsistent m (some r) h v present e =
      SamePlaces-IsConsistent (send_error-SamePlaces json _ id h) v

  join-IsConsistent :
      (m : Message) (h : Hub)
      → IsConsistent h
      → contains id h.registered ≡ true
      → IsConsistent (join json id m h)
  unfolding join
  join-IsConsistent m h v present = join_from-IsConsistent m _ h v present refl

  first-IsConsistent :
      (b : Bool) (x y : Hub × Bool)
      → IsConsistent x.0
      → IsConsistent y.0
      → IsConsistent (if b then x else y).0
  first-IsConsistent true x y p q = p
  first-IsConsistent false x y p q = q

  cmd_exec-IsConsistent :
      (keys : ℕ → Bytes) (m : Message) (h : Hub)
      → IsConsistent h
      → contains id h.registered ≡ true
      → IsConsistent (cmd_exec json keys id m h).0
  unfolding cmd_exec
  cmd_exec-IsConsistent keys m h v present =
      let joined = join-IsConsistent m h v present in
      let versioned = SamePlaces-IsConsistent (protocol_version-SamePlaces json id m h) v in
      let keyed = SamePlaces-IsConsistent (generate_key-SamePlaces json keys id h) v in
      let capable = SamePlaces-IsConsistent (capabilities-SamePlaces json id m h) v in
      search (first-IsConsistent, joined, versioned, keyed, capable, v)

  exec_decoded-IsConsistent :
      (keys : ℕ → Bytes) (o : Option Message) (h : Hub)
      → IsConsistent h
      → contains id h.registered ≡ true
      → IsConsistent (exec_decoded json keys id o h).0
  exec_decoded-IsConsistent keys none h v present = v
  exec_decoded-IsConsistent keys (some m) h v present = cmd_exec-IsConsistent keys m h v present

  cancel_unless-IsConsistent :
      (x : Hub × Bool) → IsConsistent x.0 → IsConsistent (cancel_unless json id x)
  cancel_unless-IsConsistent (h, true) v = v
  cancel_unless-IsConsistent (h, false) v = SamePlaces-IsConsistent (cancel-SamePlaces id h) v

  module _ (platform : TurnPlatform) where
    relay_unless-IsConsistent :
        (r : ℕ) (msg : Bytes) (x : Hub × Bool)
        → IsConsistent x.0
        → IsConsistent (relay_unless json platform r id msg x)
    relay_unless-IsConsistent r msg (h, true) v = v
    relay_unless-IsConsistent r msg (h, false) v =
        SameButSent-IsConsistent (send_others-SameButSent json r _ id h) v

    receive_member-IsConsistent :
        (now : ℕ) (keys : ℕ → Bytes) (msg : Bytes) (o : Option ℕ) (h : Hub)
        → IsConsistent h
        → contains id h.registered ≡ true
        → IsConsistent (receive_member json platform now keys id msg o h)
    unfolding authorize
    receive_member-IsConsistent now keys msg none h v present =
        cancel_unless-IsConsistent _ (exec_decoded-IsConsistent keys _ h v present)
    receive_member-IsConsistent now keys msg (some r) h v present =
        relay_unless-IsConsistent r msg _
          (SamePlaces-IsConsistent (handle_screen_share-SamePlaces json platform now r id msg h) v)

    -- Any message of any client keeps the tables consistent.
    pub message_received-IsConsistent :
        (now : ℕ) (keys : ℕ → Bytes) (msg : Bytes) (h : Hub)
        → IsConsistent h
        → IsConsistent (message_received json platform now keys id msg h)
    unfolding message_received find_client
    message_received-IsConsistent now keys msg h v = elim (Bool-cases (contains id h.registered)) [
      | inl present ↦
          rw present (receive_member-IsConsistent now keys msg (h.client id).channel h v present)
      | inr gone ↦ rw gone (SamePlaces-IsConsistent (cancel-SamePlaces id h) v)
    ]
