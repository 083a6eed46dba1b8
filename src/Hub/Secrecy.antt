-- ===== src/Hub/Secrecy.antt =====
-- What the messages of a master that is not authorized change: server/server.go `MessageReceived`
-- with server/screenshare.go and `SendOthers`.
use nvda_remote_go.Prelude.{ℕ, ◌≡◌, Bool, false, ◌==◌}
use nvda_remote_go.Hub.State.{Hub, Client, Json}

-- No client but `id` has changed.
pub record OnlyTouches (id : ℕ) (h i : Hub) : Type 0 where
  same : (j : ℕ) → (id == j) ≡ false → i.client j ≡ h.client j

module _ (json : Json) (id : ℕ) where
  -- A message that is not consumed has changed nothing yet.
  record Passes (h : Hub) (x : Hub × Bool) : Type 0 where
    unchanged : x.1 ≡ false → x.0 ≡ h
