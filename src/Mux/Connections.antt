-- ===== src/Mux/Connections.antt =====
-- server/snirouter.go and protomux.go: the routing and the classification of a connection, and the
-- end of a listener. A connection is the bytes that it sends; what the network does is a parameter.
use nvda_remote_go.Prelude.{
  ℕ, Bytes, Bool, true, Option, none, some, List, [], ◌∷◌, ◌==◌, is_empty, if◌then◌else◌,
}
use nvda_remote_go.Hub.State.{Hub}
use nvda_remote_go.Hub.Blocklist.{connection_refusal}
use nvda_remote_go.Relay.Create.{Gate, new_raw_client}
use nvda_remote_go.Mux.Routes.{Names, SniRoute, target_of, peek_server_name}

-- Whether the deadline of the detection is set, the handshake succeeds, the deadline is cleared, and
-- the caller of the listener still accepts connections.
pub record Network : Type 0 where
  pub deadline_set : Bool
  pub handshake_done : Bool
  pub deadline_cleared : Bool
  pub accepts : Bool

-- Where a connection goes; a connection that is handed on is all its bytes.
pub data Destination : Type 0 where
  dropped turned_away : Destination
  forwarded : Bytes → Bytes → Destination
  raw_client : Bytes → Destination
  handed_over : Bytes → Destination

abbrev hand_over : Network → Bytes → Destination
hand_over n s = if n.accepts then handed_over s else dropped

abbrev pub routed_to : Network → Bytes → Bytes → Destination
routed_to n target s = if is_empty target then hand_over n s else forwarded target s

-- `sniListener.route`
unfoldable pub route : Names → Network → List SniRoute → Bytes → Destination
unfolding target_of peek_server_name
route names n routes s =
    if n.deadline_set
    then if n.deadline_cleared
      then routed_to n (target_of names (peek_server_name names s) routes) s
      else dropped
    else dropped

-- `{`
abbrev pub raw_protocol_prefix : ℕ
raw_protocol_prefix = 123

abbrev pub admit_raw : Gate → ℕ → Bytes → ℕ → Bytes → Hub → Hub × Destination
admit_raw g now ip port s h =
    if connection_refusal g.admin_enabled g.password_defined
    then (h, turned_away)
    else (new_raw_client now ip port h, raw_client s)

abbrev pub classify_first : Network → Gate → ℕ → Bytes → ℕ → Bytes → Hub → Hub × Destination
classify_first n g now ip port [] h = (h, dropped)
classify_first n g now ip port (first ∷ s) h =
    if n.deadline_cleared
    then if first == raw_protocol_prefix
      then admit_raw g now ip port (first ∷ s) h
      else (h, hand_over n (first ∷ s))
    else (h, dropped)

-- `protocolListener.classify`
unfoldable pub classify : Network → Gate → ℕ → Bytes → ℕ → Bytes → Hub → Hub × Destination
unfolding new_raw_client connection_refusal
classify n g now ip port s h =
    if n.deadline_set
    then if n.handshake_done then classify_first n g now ip port s h else (h, dropped)
    else (h, dropped)

-- The error of a listener of either kind, and whether its callers are released.
pub record Listener : Type 0 where
  pub error : Option Bytes
  pub done : Bool

abbrev first_error : Bytes → Option Bytes → Option Bytes
first_error e none = some e
first_error e (some d) = some d

unfoldable pub fail : Bytes → Listener → Listener
fail e l = record { error = first_error e l.error; done = true }

unfoldable pub close : Listener → Listener
close l = record l { done = true }

abbrev error_or_closed : Option Bytes → Bytes
error_or_closed none = []
error_or_closed (some e) = e

-- `Accept`, where no connection is handed over: it waits, or gives the error (empty: `net.ErrClosed`).
unfoldable pub accept : Listener → Option Bytes
accept l = if l.done then some (error_or_closed l.error) else none
