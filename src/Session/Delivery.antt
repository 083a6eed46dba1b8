-- ===== src/Session/Delivery.antt =====
-- What a client that reads from a session gets, over any history of calls from its creation on.
use nvda_remote_go.Prelude.{
  ℕ, ◌+◌, ◌≤◌, ◌<◌, ◌≡◌, Bytes, Option, List, [], arith, length, take, drop,
}
use nvda_remote_go.Session.State.{Session, SequencedMessage, RelayConfig, u64_mod, new_http_session}
use nvda_remote_go.Session.Send.{messages_after, batch}
use nvda_remote_go.Session.Backlog.{Numbered, payloads}
use nvda_remote_go.Session.History.{Call, run, all_stored}
use nvda_remote_go.Session.Invariant.{IsSound, new_http_session-IsSound, run-IsSound}
use nvda_remote_go.Session.Stream.{
  new_http_session-Represents, run-Represents, messages_after-stretch,
}

module _ (id token_hash addr : Bytes) (manager : Option RelayConfig) (now : ℕ) where
  abbrev fresh : Session
  fresh = new_http_session id token_hash addr manager now

  fresh-IsSound : IsSound fresh
  fresh-IsSound = new_http_session-IsSound id token_hash addr manager now

  fresh_room : (cs : List Call) → length cs < u64_mod → fresh.next_outbound + length cs < u64_mod
  unfolding new_http_session
  fresh_room cs h = omega arith

  -- After any history of calls, of fewer than 2^64, on a new session, every limit holds and the
  -- backlog is numbered without a gap from the last acknowledgement.
  pub history-IsSound : (cs : List Call) → length cs < u64_mod → IsSound (run fresh cs)
  history-IsSound cs h = run-IsSound fresh cs fresh-IsSound (fresh_room cs h)

  -- After any history of calls, of fewer than 2^64, on a new session, a request for at most `limit`
  -- messages (`limit` positive) after number `after`, not below the last acknowledgement nor above
  -- the number of messages stored, gets exactly the messages that were stored at those places, in
  -- order, each under the number of its place, and the number of messages stored so far.
  pub messages_after-history :
      (cs : List Call) (after limit : ℕ)
      → length cs < u64_mod
      → 0 < limit
      → (run fresh cs).acknowledged ≤ after
      → after ≤ length (all_stored fresh cs)
      → (ms : List SequencedMessage) × (messages_after after limit (run fresh cs)
          ≡ batch ms (length (all_stored fresh cs)))
        × (payloads ms ≡ take limit (drop after (all_stored fresh cs)))
        × Numbered after ms (after + length ms)
  messages_after-history cs after limit h pos lo hi =
      messages_after-stretch (run fresh cs) (all_stored fresh cs) after limit (history-IsSound cs h)
        (run-Represents fresh [] cs fresh-IsSound (fresh_room cs h)
          (new_http_session-Represents id token_hash addr manager now))
        pos lo hi
