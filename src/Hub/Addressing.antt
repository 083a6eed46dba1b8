-- ===== src/Hub/Addressing.antt =====
-- Who gets a signaling message of screen sharing.
use nvda_remote_go.Prelude.{
  ℕ, ◌≡◌, refl, Bytes, Bool, true, false, Option, none, some, not, ◌&&◌, arith, ◌==◌, if◌then◌else◌,
  contains, positive, codes,
}
use nvda_remote_go.Hub.State.{Hub, Client, Json, Message, push, send_encoded, edit_client, json_add}
use nvda_remote_go.Hub.Client.{allow_signaling, has_capability}
use nvda_remote_go.Hub.Channel.{find_client_by_id}
use nvda_remote_go.Hub.Commands.{send_error}
use nvda_remote_go.Hub.Signaling.{cap_screen_share, is_unauthorized_master}
use nvda_remote_go.Hub.Routing.{
  signal_peer, signal_target, signal_from, route_signaling, send_if_ok,
}
use nvda_remote_go.Hub.Delivery.{client-send}

-- A client that may take part: it has the capability, and is no master that may not control.
abbrev pub takes_part : Client → Bool
takes_part c = has_capability cap_screen_share c && not (is_unauthorized_master c)

abbrev pub is_target : ℕ → Option ℕ → Bool
is_target j none = false
is_target j (some k) = k == j

module _ (json : Json) (id j : ℕ) where
  client-send_encoded :
      (o : Option Bytes) (h : Hub) → (id == j) ≡ false → (send_encoded o id h).client j ≡ h.client j
  client-send_encoded none h d = refl
  client-send_encoded (some b) h d = ground (arith, client-send id b h j)

  client-send_error :
      (e : Bytes) (h : Hub) → (id == j) ≡ false → (send_error json e id h).client j ≡ h.client j
  unfolding send_error
  client-send_error e h d = client-send_encoded _ h d

  client-send_if_ok :
      (target : ℕ) (out : Bytes × Bool) (h : Hub)
      → (send_if_ok json target out h).client j
        ≡ (if target == j && out.1 then push out.0 (h.client j) else h.client j)
  client-send_if_ok target (out, true) h = ground (arith, client-send target out h j)
  client-send_if_ok target (out, false) h = ground arith

  abbrev tagged : Bytes → Bytes × Bool
  tagged msg = json_add json msg (codes "origin") id

  client-signal_peer :
      (target : ℕ) (msg : Bytes) (h : Hub)
      → (id == j) ≡ false
      → (signal_peer json id target msg h).client j ≡ (
          if target == j && takes_part (h.client j) && (tagged msg).1
          then push (tagged msg).0 (h.client j)
          else h.client j)
  unfolding signal_peer
  client-signal_peer target msg h d = ground (
    arith,
    client-send_error (codes "screen_share_unsupported") h d,
    client-send_error (codes "target_not_found") h d,
    client-send_if_ok target (tagged msg) h,
  )

  client-signal_target :
      (r : ℕ) (o : Option ℕ) (msg : Bytes) (h : Hub)
      → (id == j) ≡ false
      → (signal_target json r id o msg h).client j ≡ (
          if is_target j o
            && contains j (h.channel r).all
            && takes_part (h.client j)
            && (tagged msg).1
          then push (tagged msg).0 (h.client j)
          else h.client j)
  unfolding find_client_by_id
  client-signal_target r none msg h d = client-send_error (codes "invalid_parameters") h d
  client-signal_target r (some target) msg h d = ground (
    arith,
    client-send_error (codes "invalid_parameters") h d,
    client-send_error (codes "target_not_found") h d,
    client-signal_peer target msg h d,
  )

  client-signal_from :
      (r : ℕ) (m : Message) (msg : Bytes) (h : Hub)
      → (id == j) ≡ false
      → (signal_from json r id m msg h).client j ≡ (
          if takes_part (h.client id)
            && is_target j (positive m.target)
            && contains j (h.channel r).all
            && takes_part (h.client j)
            && (tagged msg).1
          then push (tagged msg).0 (h.client j)
          else h.client j)
  unfolding signal_from
  client-signal_from r m msg h d = ground (
    arith,
    client-send_error (codes "screen_share_unsupported") h d,
    client-send_error (codes "not_authorized") h d,
    client-signal_target r (positive m.target) msg h d,
  )

  takes_part-allow_signaling :
      (now : ℕ) (c : Client) → takes_part (allow_signaling now c).0 ≡ takes_part c
  unfolding allow_signaling is_unauthorized_master has_capability
  takes_part-allow_signaling now c = ground arith

  -- A signaling message reaches no client but the one that it names as its target, and that one
  -- only if it is a member of the channel and the sender is within its rate: once, with the
  -- sender's identifier put in, and only if both have declared screen sharing and neither is a
  -- master that is not authorized.
  pub client-route_signaling :
      (now r : ℕ) (m : Message) (msg : Bytes) (h : Hub)
      → (id == j) ≡ false
      → (route_signaling json now r id m msg h).client j ≡ (
          if (allow_signaling now (h.client id)).1
            && takes_part (h.client id)
            && is_target j (positive m.target)
            && contains j (h.channel r).all
            && takes_part (h.client j)
            && (tagged msg).1
          then push (tagged msg).0 (h.client j)
          else h.client j)
  unfolding route_signaling
  client-route_signaling now r m msg h d =
      let h' = edit_client id (λ _. (allow_signaling now (h.client id)).0) h in
      ground (arith, client-signal_from r m msg h' d, takes_part-allow_signaling now (h.client id))
