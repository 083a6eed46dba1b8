-- ===== src/Hub/Traffic.antt =====
-- The life of the hub: connections, messages and disconnections, one after the other, and what
-- holds after any of them. `listen` is split into the events that its goroutines make.
use nvda_remote_go.Prelude.{ℕ, ◌≡◌, Bytes, none, List, [], ◌∷◌}
use nvda_remote_go.Hub.State.{Hub, Client, Json, edit_client}
use nvda_remote_go.Hub.Client.{mark_received, stop, cancel}
use nvda_remote_go.Hub.Registry.{add_client}
use nvda_remote_go.Hub.Membership.{remove_client}
use nvda_remote_go.Hub.Signaling.{TurnPlatform}
use nvda_remote_go.Hub.Receive.{message_received}

-- What happens to the hub, one event after the other. A client that connects is in no channel.
pub data Event : Type 0 where
  connects : (c : Client) → c.channel ≡ none → Event
  receives : ℕ → (ℕ → Bytes) → ℕ → Bytes → Event
  is_stopped disconnects : ℕ → Event

module _ (json : Json) (platform : TurnPlatform) where
  unfoldable pub happen : Event → Hub → Hub
  happen (connects c free) h = add_client c h
  happen (receives now keys id msg) h =
      message_received json platform now keys id msg (edit_client id (mark_received now) h)
  happen (is_stopped id) h = edit_client id stop h
  happen (disconnects id) h = remove_client json id (edit_client id cancel h)

  unfoldable pub happen_each : List Event → Hub → Hub
  happen_each [] h = h
  happen_each (e ∷ es) h = happen_each es (happen e h)
