-- ===== src/Examples/Managers.antt =====
-- Tables with one or two sessions. The platform's functions are stand-ins: an address is its own
-- host, and the encodings do nothing.
use nvda_remote_go.Prelude.{
  ◌+◌, ◌||◌, leb, if◌then◌else◌, ℕ, ◌≡◌, refl, bytes_eq, none, some, List, [], ◌∷◌, codes, arith,
}
use nvda_remote_go.Session.State.{Session, new_http_session, default_http_relay_config}
use nvda_remote_go.Session.History.{Call, reads, enqueues, run, step}
use nvda_remote_go.Session.Receive.{read_message}
use nvda_remote_go.Session.Send.{try_enqueue}
use nvda_remote_go.Manager.Table.{
  Manager, Platform, Draw, count_ip, create, get, close_all, find_session, new_http_relay_manager,
}
use nvda_remote_go.Manager.Expiry.{Distinct, get_lem, close_all-empty}
use nvda_remote_go.Manager.Activity.{get-silent}
use nvda_remote_go.Manager.Limits.{IsWithin, create-IsWithin}

abbrev pub toy : Platform
toy = record {
  split_host_port = λ addr. some (addr, []);
  encode64 = λ b. b;
  decode64 = λ b. some b;
  sha256 = λ b. b;
}

abbrev draws : ℕ → Draw
draws n = record { id_bytes = some (n ∷ []); token_bytes = some (codes "token") }

abbrev pub empty_table : Manager
empty_table = new_http_relay_manager default_http_relay_config

empty-IsWithin : IsWithin toy empty_table
unfolding new_http_relay_manager count_ip
empty-IsWithin = record {
  distinct = tt;
  total = λ pos. omega arith;
  per_ip = λ ip pos. omega arith;
}

create-IsWithin_example : IsWithin toy (create toy 5 draws (codes "10.0.0.1") empty_table).0
create-IsWithin_example = create-IsWithin toy 5 draws (codes "10.0.0.1") empty_table empty-IsWithin

abbrev quiet : Session
quiet = new_http_session (codes "a") [] [] none 0

abbrev server_calls : List Call
server_calls = enqueues 1 (codes "ping") ∷ reads ∷ []

abbrev pub table : Manager
table = record empty_table {
  sessions = run quiet server_calls ∷ new_http_session (codes "b") [] [] none 130000000000 ∷ [];
}

table-Distinct : Distinct table.sessions
unfolding new_http_relay_manager new_http_session run step try_enqueue read_message find_session
    bytes_eq
table-Distinct = (refl, (refl, tt))

get_lem_example :
    (get 121000000000 (codes "a") table).1 ≡ elim (find_session (codes "a") table.sessions) [
      | none ↦ none
      | some s ↦
          if s.closed || leb 121000000000 (s.last_activity + 120000000000) then some s else none
    ]
unfolding new_http_relay_manager
get_lem_example = get_lem 121000000000 (codes "a") table table-Distinct (omega arith)

close_all-empty_example : (close_all table).sessions ≡ []
close_all-empty_example = close_all-empty table table-Distinct

get-silent_example : (get 121000000000 (codes "a") table).1 ≡ none
unfolding new_http_relay_manager new_http_session run step try_enqueue read_message find_session
    bytes_eq
get-silent_example =
    get-silent 121000000000 (codes "a") table quiet server_calls table-Distinct (omega arith) refl
      refl refl (omega arith)
