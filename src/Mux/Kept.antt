-- ===== src/Mux/Kept.antt =====
-- server/protomux.go and snirouter.go: a connection that is classified keeps its bytes, and a listener
-- its first error.
use nvda_remote_go.Prelude.{
  ◌+◌, ℕ, suc, ◌≡◌, refl, ap, ◌∙◌, Bytes, Bool, true, false, none, some, List, [], ◌∷◌, ◌++◌, ◌&&◌,
  length, arith, contains-insert, if◌then◌else◌,
}
use nvda_remote_go.Hub.State.{Hub}
use nvda_remote_go.Hub.Registry.{add_client, find_client}
use nvda_remote_go.Hub.Blocklist.{connection_refusal}
use nvda_remote_go.Relay.Create.{Gate, new_raw_client}
use nvda_remote_go.Framing.RoundTrip.{
  written, read_messages, NoneContains, read_messages-written, written_cons,
}
use nvda_remote_go.Mux.Connections.{
  Network, Destination, raw_client, classify, Listener, fail, close, accept,
}

-- The destination has no client of the raw protocol, and the hub is as it was.
abbrev pub is_raw : Destination → Bool
is_raw (raw_client s) = true
is_raw _ = false

registered :
    (now : ℕ) (ip : Bytes) (port : ℕ) (h : Hub)
    → find_client (suc h.last_id) (new_raw_client now ip port h) ≡ true
unfolding new_raw_client add_client find_client
registered now ip port h =
    ground (arith, contains-insert (h.last_id + 1) (suc h.last_id) h.registered)

classify-raw_client :
    (n : Network) (g : Gate) (now : ℕ) (ip : Bytes) (port : ℕ) (h : Hub) (more s : Bytes)
    → s ≡ 123 ∷ more
    → n.deadline_set ≡ true
    → n.handshake_done ≡ true
    → n.deadline_cleared ≡ true
    → connection_refusal g.admin_enabled g.password_defined ≡ false
    → classify n g now ip port s h ≡ (new_raw_client now ip port h, raw_client s)
unfolding classify
classify-raw_client n g now ip port h more s e set done cleared admitted =
    rw (e, set, done, cleared, admitted) refl

-- The bytes of a client of the raw protocol whose first message starts with `{`, through a
-- connection on which nothing fails, once the password of the dashboard is defined: the client is
-- registered under the next identifier, and what the server reads of it are the messages that it
-- wrote, in order, the byte that was looked at included (no message has a newline).
pub classify-read :
    (n : Network) (g : Gate) (now : ℕ) (ip : Bytes) (port : ℕ) (h : Hub) (first : Bytes)
    (ms : List Bytes) (rest : Bytes)
    → n.deadline_set ≡ true
    → n.handshake_done ≡ true
    → n.deadline_cleared ≡ true
    → connection_refusal g.admin_enabled g.password_defined ≡ false
    → NoneContains 10 ((123 ∷ first) ∷ ms)
    → (s : Bytes) × ((classify n g now ip port (written 10 ((123 ∷ first) ∷ ms) ++ rest) h).1
        ≡ raw_client s)
      × (read_messages 10 (suc (length ms)) s ≡ some ((123 ∷ first) ∷ ms, rest))
      × (find_client
            (suc h.last_id)
            (classify n g now ip port (written 10 ((123 ∷ first) ∷ ms) ++ rest) h).0
          ≡ true)
classify-read n g now ip port h first ms rest set done cleared admitted free =
    let s = written 10 ((123 ∷ first) ∷ ms) ++ rest in
    let at =
      classify-raw_client n g now ip port h (first ++ 10 ∷ (written 10 ms ++ rest)) s
        (written_cons 10 (123 ∷ first) ms rest) set done cleared admitted in
    (
      s,
      ap (λ x. x.1) at,
      read_messages-written 10 ((123 ∷ first) ∷ ms) rest free,
      ap (λ x. find_client (suc h.last_id) x.0) at ∙ registered now ip port h,
    )

-- While the dashboard waits for its password, no connection becomes a client of the raw protocol,
-- and a connection that does not become one leaves the hub as it is.
pub classify-hub :
    (n : Network) (g : Gate) (now : ℕ) (ip : Bytes) (port : ℕ) (s : Bytes) (h : Hub)
    → ((is_raw (classify n g now ip port s h).1
          && connection_refusal g.admin_enabled g.password_defined)
        ≡ false)
      × ((if is_raw (classify n g now ip port s h).1 then h else (classify n g now ip port s h).0)
          ≡ h)
unfolding classify
classify-hub n g now ip port [] h = ground arith
classify-hub n g now ip port (x ∷ s) h = ground arith

pub data Ending : Type 0 where
  fails : Bytes → Ending
  closes : Ending

unfoldable pub run : Listener → List Ending → Listener
unfolding fail close
run l [] = l
run l (fails e ∷ es) = run (fail e l) es
run l (closes ∷ es) = run (close l) es

keeps_error :
    (e : Bytes) (l : Listener) (es : List Ending)
    → l.error ≡ some e
    → l.done ≡ true
    → accept (run l es) ≡ some e
unfolding run accept
keeps_error e l [] p q = rw (q, p) refl
keeps_error e l (fails d ∷ es) p q =
    keeps_error e (fail d l) es (unfold fail in rw p refl) (unfold fail in refl)
keeps_error e l (closes ∷ es) p q =
    keeps_error e (close l) es (unfold close in p) (unfold close in refl)

-- Once a listener without an error has failed, its callers are released with that error, whatever
-- fails or is closed later.
pub accept-fail :
    (e : Bytes) (l : Listener) (es : List Ending)
    → l.error ≡ none
    → accept (run (fail e l) es) ≡ some e
accept-fail e l es p = keeps_error e (fail e l) es (unfold fail in rw p refl) (unfold fail in refl)
