-- ===== src/Hub/Client.antt =====
-- server/client.go: the accessors that change a client, and the rate limit on signaling messages.
use nvda_remote_go.Prelude.{
  ℕ, ◌+◌, ◌-◌, Bytes, Bool, true, false, Option, none, some, List, [], ◌∷◌, ltb, leb, bytes_eq,
  ◌||◌, if◌then◌else◌, ℤ,
}
use nvda_remote_go.Hub.State.{Client}

unfoldable pub set_channel : Option ℕ → Client → Client
set_channel r c = record c { channel = r }

unfoldable pub clear_channel : Client → Client
clear_channel c = set_channel none c

unfoldable pub set_authorized : Bool → Client → Client
set_authorized auth c = record c { authorized = auth }

unfoldable pub set_connection_type : Bytes → Client → Client
set_connection_type t c = record c { connection_type = t }

unfoldable pub set_version : ℤ → Client → Client
set_version v c = record c { version = v }

unfoldable pub set_capabilities : List Bytes → Client → Client
set_capabilities cs c = record c { capabilities = cs }

unfoldable pub mark_received : ℕ → Client → Client
mark_received now c = record c { last_received = some now }

-- The client's `Close`: its context is cancelled.
unfoldable pub cancel : Client → Client
cancel c = record c { cancelled = true }

-- The goroutine of `listen` that waits for the context: only then is the client closed.
unfoldable pub stop : Client → Client
stop c = if c.cancelled then record c { closed = true } else c

unfoldable pub mentions : Bytes → List Bytes → Bool
mentions v [] = false
mentions v (x ∷ xs) = bytes_eq x v || mentions v xs

unfoldable pub has_capability : Bytes → Client → Bool
has_capability v c = mentions v c.capabilities

abbrev pub signaling_window : ℕ
signaling_window = 10000000000

abbrev pub signaling_window_max : ℕ
signaling_window_max = 250

-- `now.Sub(c.sigWindow) > signalingWindow`; the zero time is longer ago than any window.
abbrev pub window_over : ℕ → Option ℕ → Bool
window_over now none = true
window_over now (some start) = ltb signaling_window (now - start)

abbrev pub roll_window : ℕ → Client → Client
roll_window now c =
    if window_over now c.signal_window
    then record c { signal_window = some now; signal_count = 0 }
    else c

abbrev pub count_signal : Client → Client × Bool
count_signal c =
    (record c { signal_count = c.signal_count + 1 }, leb (c.signal_count + 1) signaling_window_max)

unfoldable pub allow_signaling : ℕ → Client → Client × Bool
allow_signaling now c = count_signal (roll_window now c)
