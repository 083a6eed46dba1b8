-- ===== src/Hub/Quiet.antt =====
-- What changes no membership: answers, signaling, capabilities, versions and keys.
use nvda_remote_go.Prelude.{
  ℕ, refl, Bytes, Bool, true, false, Option, none, some, List, [], ◌∷◌, arith, if◌then◌else◌,
}
use nvda_remote_go.Hub.State.{Hub, Message, Json, send, send_encoded, edit_client, IceServer}
use nvda_remote_go.Hub.Client.{set_version, set_capabilities, cancel, allow_signaling}
use nvda_remote_go.Hub.Commands.{send_error, protocol_version, set_protocol_version}
use nvda_remote_go.Hub.Signaling.{TurnPlatform}
use nvda_remote_go.Hub.Routing.{
  send_if_ok, signal_peer, signal_found, signal_target, signal_from, route_signaling, send_servers,
  send_turn_credentials_in, send_turn_credentials, handle_decoded, handle_screen_share,
}
use nvda_remote_go.Hub.Receive.{gen_key, answer_key, generate_key, capabilities}
use nvda_remote_go.Hub.Silent.{SameButSent-refl, send-SameButSent, send_encoded-SameButSent}
use nvda_remote_go.Hub.Invariant.{
  SamePlaces, SamePlaces-trans, SameButSent-SamePlaces, edit_client-SamePlaces,
}

pub SamePlaces-refl : (h : Hub) → SamePlaces h h
SamePlaces-refl h = SameButSent-SamePlaces (SameButSent-refl h)

pub if-SamePlaces :
    (b : Bool) {h i k : Hub} → SamePlaces h i → SamePlaces h k → SamePlaces h (if b then i else k)
if-SamePlaces true p q = p
if-SamePlaces false p q = q

first-SamePlaces :
    (b : Bool) {h : Hub} (x y : Hub × Bool)
    → SamePlaces h x.0
    → SamePlaces h y.0
    → SamePlaces h (if b then x else y).0
first-SamePlaces true x y p q = p
first-SamePlaces false x y p q = q

pub send-SamePlaces : (id : ℕ) (b : Bytes) (h : Hub) → SamePlaces h (send id b h)
send-SamePlaces id b h = SameButSent-SamePlaces (send-SameButSent id b h)

pub send_encoded-SamePlaces :
    (o : Option Bytes) (id : ℕ) (h : Hub) → SamePlaces h (send_encoded o id h)
send_encoded-SamePlaces o id h = SameButSent-SamePlaces (send_encoded-SameButSent o id h)

pub cancel-SamePlaces : (id : ℕ) (h : Hub) → SamePlaces h (edit_client id cancel h)
unfolding cancel
cancel-SamePlaces id h = edit_client-SamePlaces id cancel h refl refl

pub set_capabilities-SamePlaces :
    (cs : List Bytes) (id : ℕ) (h : Hub) → SamePlaces h (edit_client id (set_capabilities cs) h)
unfolding set_capabilities
set_capabilities-SamePlaces cs id h = edit_client-SamePlaces id (set_capabilities cs) h refl refl

module _ (json : Json) where
  pub send_error-SamePlaces : (e : Bytes) (id : ℕ) (h : Hub) → SamePlaces h (send_error json e id h)
  unfolding send_error
  send_error-SamePlaces e id h = send_encoded-SamePlaces _ id h

  send_if_ok-SamePlaces :
      (target : ℕ) (out : Bytes × Bool) (h : Hub) → SamePlaces h (send_if_ok json target out h)
  send_if_ok-SamePlaces target (out, true) h = send-SamePlaces target out h
  send_if_ok-SamePlaces target (out, false) h = SamePlaces-refl h

  signal_peer-SamePlaces :
      (id target : ℕ) (msg : Bytes) (h : Hub) → SamePlaces h (signal_peer json id target msg h)
  unfolding signal_peer
  signal_peer-SamePlaces id target msg h =
      search (if-SamePlaces, send_error-SamePlaces, send_if_ok-SamePlaces)

  signal_found-SamePlaces :
      (id : ℕ) (o : Option ℕ) (msg : Bytes) (h : Hub) → SamePlaces h (signal_found json id o msg h)
  signal_found-SamePlaces id none msg h = send_error-SamePlaces _ id h
  signal_found-SamePlaces id (some target) msg h = signal_peer-SamePlaces id target msg h

  signal_target-SamePlaces :
      (r id : ℕ) (o : Option ℕ) (msg : Bytes) (h : Hub)
      → SamePlaces h (signal_target json r id o msg h)
  signal_target-SamePlaces r id none msg h = send_error-SamePlaces _ id h
  signal_target-SamePlaces r id (some target) msg h =
      search (if-SamePlaces, send_error-SamePlaces, signal_found-SamePlaces)

  signal_from-SamePlaces :
      (r id : ℕ) (m : Message) (msg : Bytes) (h : Hub)
      → SamePlaces h (signal_from json r id m msg h)
  unfolding signal_from
  signal_from-SamePlaces r id m msg h =
      search (if-SamePlaces, send_error-SamePlaces, signal_target-SamePlaces)

  allow_signaling-SamePlaces :
      (now id : ℕ) (h : Hub)
      → SamePlaces h (edit_client id (λ _. (allow_signaling now (h.client id)).0) h)
  unfolding allow_signaling
  allow_signaling-SamePlaces now id h =
      edit_client-SamePlaces id (λ _. (allow_signaling now (h.client id)).0) h (ground arith)
        (ground arith)

  route_signaling-SamePlaces :
      (now r id : ℕ) (m : Message) (msg : Bytes) (h : Hub)
      → SamePlaces h (route_signaling json now r id m msg h)
  unfolding route_signaling
  route_signaling-SamePlaces now r id m msg h =
      let counted = allow_signaling-SamePlaces now id h in
      if-SamePlaces _ (SamePlaces-trans counted (signal_from-SamePlaces r id m msg _)) counted

  module _ (platform : TurnPlatform) where
    send_servers-SamePlaces :
        (servers : List IceServer × ℕ) (id : ℕ) (h : Hub)
        → SamePlaces h (send_servers json platform servers id h)
    send_servers-SamePlaces ([], ttl) id h = send_error-SamePlaces _ id h
    send_servers-SamePlaces (s ∷ ss, ttl) id h = send_encoded-SamePlaces _ id h

    send_turn_credentials_in-SamePlaces :
        (now id : ℕ) (o : Option ℕ) (h : Hub)
        → SamePlaces h (send_turn_credentials_in json platform now id o h)
    send_turn_credentials_in-SamePlaces now id none h = send_error-SamePlaces _ id h
    send_turn_credentials_in-SamePlaces now id (some r) h =
        search (if-SamePlaces, send_error-SamePlaces, send_servers-SamePlaces)

    send_turn_credentials-SamePlaces :
        (now id : ℕ) (h : Hub) → SamePlaces h (send_turn_credentials json platform now id h)
    unfolding send_turn_credentials
    send_turn_credentials-SamePlaces now id h = send_turn_credentials_in-SamePlaces now id _ h

    handle_decoded-SamePlaces :
        (now r id : ℕ) (msg : Bytes) (h : Hub) (o : Option Message)
        → SamePlaces h (handle_decoded json platform now r id msg h o).0
    handle_decoded-SamePlaces now r id msg h none = SamePlaces-refl h
    handle_decoded-SamePlaces now r id msg h (some m) = search (
      first-SamePlaces, SamePlaces-refl, set_capabilities-SamePlaces,
      send_turn_credentials-SamePlaces, route_signaling-SamePlaces,
    )

    pub handle_screen_share-SamePlaces :
        (now r id : ℕ) (msg : Bytes) (h : Hub)
        → SamePlaces h (handle_screen_share json platform now r id msg h).0
    unfolding handle_screen_share
    handle_screen_share-SamePlaces now r id msg h =
        search (first-SamePlaces, SamePlaces-refl, handle_decoded-SamePlaces)

  set_protocol_version-SamePlaces :
      (id : ℕ) (m : Message) (o : Option ℕ) (h : Hub)
      → SamePlaces h (set_protocol_version json id m o h)
  unfolding set_version
  set_protocol_version-SamePlaces id m none h = send_error-SamePlaces _ id h
  set_protocol_version-SamePlaces id m (some n) h =
      edit_client-SamePlaces id (set_version m.version) h refl refl

  pub protocol_version-SamePlaces :
      (id : ℕ) (m : Message) (h : Hub) → SamePlaces h (protocol_version json id m h)
  unfolding protocol_version
  protocol_version-SamePlaces id m h = set_protocol_version-SamePlaces id m _ h

  answer_key-SamePlaces :
      (key : Bytes) (o : Option Bytes) (id : ℕ) (h : Hub)
      → SamePlaces h (answer_key json key o id h)
  answer_key-SamePlaces key none id h = SamePlaces-refl h
  answer_key-SamePlaces key (some b) id h =
      SamePlaces-trans (send-SamePlaces id b h) (cancel-SamePlaces id (send id b h))

  pub generate_key-SamePlaces :
      (keys : ℕ → Bytes) (id : ℕ) (h : Hub) → SamePlaces h (generate_key json keys id h)
  unfolding generate_key
  generate_key-SamePlaces keys id h = answer_key-SamePlaces (gen_key keys h) _ id h

  pub capabilities-SamePlaces :
      (id : ℕ) (m : Message) (h : Hub) → SamePlaces h (capabilities json id m h)
  unfolding capabilities
  capabilities-SamePlaces id m h =
      search (if-SamePlaces, SamePlaces-refl, set_capabilities-SamePlaces)
