-- ===== src/Session/History.antt =====
-- Histories of calls on one session, with what each call adds to the three lists that an observer
-- keeps: the messages stored for the client, those accepted from it, and those read by the server.
use nvda_remote_go.Prelude.{ℕ, Bytes, Option, none, some, List, [], ◌∷◌, ◌++◌}
use nvda_remote_go.Session.State.{Session, SequencedMessage, HttpError, touch}
use nvda_remote_go.Session.Receive.{accept_inbound, read_message, ReadResult, message}
use nvda_remote_go.Session.Send.{try_enqueue, acknowledge_outbound, Attempt, stored}
use nvda_remote_go.Session.Poll.{
  begin_poll, end_poll, close_session, set_write_deadline, take_notice,
}

pub data Call : Type 0 where
  accepts : ℕ → ℕ → Bytes → Call
  reads : Call
  enqueues : ℕ → Bytes → Call
  acknowledges : ℕ → ℕ → Call
  begins_poll : ℕ → Call
  ends_poll : Call
  touches : ℕ → Call
  sets_deadline : Option ℕ → Call
  takes_notice : Call
  closes : Call

unfoldable pub step : Session → Call → Session
unfolding accept_inbound read_message try_enqueue acknowledge_outbound begin_poll end_poll touch
    set_write_deadline take_notice close_session
step s (accepts now sequence payload) = (accept_inbound now sequence payload s).0
step s reads = (read_message s).0
step s (enqueues now payload) = (try_enqueue now payload s).0
step s (acknowledges now sequence) = (acknowledge_outbound now sequence s).0
step s (begins_poll now) = (begin_poll now s).0
step s ends_poll = end_poll s
step s (touches now) = touch now s
step s (sets_deadline deadline) = (set_write_deadline deadline s).0
step s takes_notice = take_notice s
step s closes = close_session s

unfoldable pub run : Session → List Call → Session
run s [] = s
run s (c ∷ cs) = run (step s c) cs

abbrev if_stored : Attempt → Bytes → List Bytes
if_stored stored payload = payload ∷ []
if_stored _ payload = []

abbrev if_accepted : Option HttpError → SequencedMessage → List SequencedMessage
if_accepted none m = m ∷ []
if_accepted (some e) m = []

abbrev if_read : ReadResult → List Bytes
if_read (message payload) = payload ∷ []
if_read _ = []

-- What a call stores in the backlog.
unfoldable pub stores : Session → Call → List Bytes
unfolding try_enqueue
stores s (enqueues now payload) = if_stored (try_enqueue now payload s).1 payload
stores s _ = []

-- What a call takes from the client.
unfoldable pub takes : Session → Call → List SequencedMessage
unfolding accept_inbound
takes s (accepts now sequence payload) =
    if_accepted (accept_inbound now sequence payload s).1
      (record { sequence = sequence; payload = payload })
takes s _ = []

-- What a call hands to the server's read loop.
unfoldable pub hands_over : Session → Call → List Bytes
unfolding read_message
hands_over s reads = if_read (read_message s).1
hands_over s _ = []

unfoldable pub all_stored : Session → List Call → List Bytes
all_stored s [] = []
all_stored s (c ∷ cs) = stores s c ++ all_stored (step s c) cs

unfoldable pub all_taken : Session → List Call → List SequencedMessage
all_taken s [] = []
all_taken s (c ∷ cs) = takes s c ++ all_taken (step s c) cs

unfoldable pub all_handed_over : Session → List Call → List Bytes
all_handed_over s [] = []
all_handed_over s (c ∷ cs) = hands_over s c ++ all_handed_over (step s c) cs
