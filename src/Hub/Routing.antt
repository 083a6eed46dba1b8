-- ===== src/Hub/Routing.antt =====
-- server/screenshare.go: what becomes of the screen sharing messages of a channel member.
use nvda_remote_go.Prelude.{
  ℕ, Bytes, Bool, true, false, Option, none, some, List, [], ◌∷◌, codes, bytes_eq, not, ◌||◌, ◌==◌,
  if◌then◌else◌, positive,
}
use nvda_remote_go.Hub.State.{
  Hub, Message, IceServer, empty_message, Json, edit_client, send, send_encoded, json_add,
}
use nvda_remote_go.Hub.Client.{set_capabilities, has_capability, allow_signaling}
use nvda_remote_go.Hub.Channel.{find_client_by_id}
use nvda_remote_go.Hub.Commands.{send_error}
use nvda_remote_go.Hub.Signaling.{
  cap_screen_share, filter_capabilities, maybe_screen_share, is_signaling_type,
  is_unauthorized_master, TurnPlatform, ice_servers,
}

module _ (json : Json) where
  -- A message that could not be given its origin is dropped.
  abbrev pub send_if_ok : ℕ → Bytes × Bool → Hub → Hub
  send_if_ok target (out, true) h = send target out h
  send_if_ok target (out, false) h = h

  -- The checks on the peer.
  unfoldable pub signal_peer : ℕ → ℕ → Bytes → Hub → Hub
  signal_peer id target msg h =
      if not (has_capability cap_screen_share (h.client target))
      then send_error json (codes "screen_share_unsupported") id h
      else if is_unauthorized_master (h.client target)
      then send_error json (codes "target_not_found") id h
      else send_if_ok target (json_add json msg (codes "origin") id) h

  abbrev pub signal_found : ℕ → Option ℕ → Bytes → Hub → Hub
  signal_found id none msg h = send_error json (codes "target_not_found") id h
  signal_found id (some target) msg h = signal_peer id target msg h

  abbrev pub signal_target : ℕ → ℕ → Option ℕ → Bytes → Hub → Hub
  signal_target r id none msg h = send_error json (codes "invalid_parameters") id h
  signal_target r id (some target) msg h =
      if target == id
      then send_error json (codes "invalid_parameters") id h
      else signal_found id (find_client_by_id target (h.channel r)) msg h

  -- The checks on the sender, after the rate limit.
  unfoldable pub signal_from : ℕ → ℕ → Message → Bytes → Hub → Hub
  signal_from r id m msg h =
      if not (has_capability cap_screen_share (h.client id))
      then send_error json (codes "screen_share_unsupported") id h
      else if is_unauthorized_master (h.client id)
      then send_error json (codes "not_authorized") id h
      else signal_target r id (positive m.target) msg h

  abbrev pub if_allowed : Bool → Hub → Hub → Hub
  if_allowed allowed h next = if allowed then next else h

  unfoldable pub route_signaling : ℕ → ℕ → ℕ → Message → Bytes → Hub → Hub
  route_signaling now r id m msg h =
      let (c, allowed) = allow_signaling now (h.client id) in
      let h' = edit_client id (λ _. c) h in if_allowed allowed h' (signal_from r id m msg h')

  module _ (platform : TurnPlatform) where
    abbrev pub send_servers : List IceServer × ℕ → ℕ → Hub → Hub
    send_servers ([], ttl) id h = send_error json (codes "turn_unavailable") id h
    send_servers (s ∷ ss, ttl) id h =
        send_encoded
          (json.encode (record empty_message {
            kind = codes "turn_credentials";
            ice_servers = s ∷ ss;
            ttl = ttl;
          }))
          id h

    abbrev pub send_turn_credentials_in : ℕ → ℕ → Option ℕ → Hub → Hub
    send_turn_credentials_in now id none h = send_error json (codes "invalid_parameters") id h
    send_turn_credentials_in now id (some r) h =
        if not (has_capability cap_screen_share (h.client id))
        then send_error json (codes "screen_share_unsupported") id h
        else if is_unauthorized_master (h.client id)
        then send_error json (codes "not_authorized") id h
        else send_servers (ice_servers platform now id h) id h

    unfoldable pub send_turn_credentials : ℕ → ℕ → Hub → Hub
    send_turn_credentials now id h = send_turn_credentials_in now id (h.client id).channel h

    -- The hub afterwards, and whether the message was consumed.
    abbrev pub handle_decoded : ℕ → ℕ → ℕ → Bytes → Hub → Option Message → Hub × Bool
    handle_decoded now r id msg h none = (h, false)
    handle_decoded now r id msg h (some m) =
        if bytes_eq m.kind (codes "capabilities")
        then (edit_client id (set_capabilities (filter_capabilities m.capabilities)) h, true)
        else if bytes_eq m.kind (codes "turn_credentials")
        then (send_turn_credentials now id h, true)
        else if is_signaling_type m.kind
        then (route_signaling now r id m msg h, true)
        else (h, false)

    unfoldable pub handle_screen_share : ℕ → ℕ → ℕ → Bytes → Hub → Hub × Bool
    handle_screen_share now r id msg h =
        if not h.settings.screen_share || not (maybe_screen_share msg)
        then (h, false)
        else handle_decoded now r id msg h (json.decode msg)
