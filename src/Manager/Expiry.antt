-- ===== src/Manager/Expiry.antt =====
-- The table as a map from identifiers: what removal, expiry and lookup do to it.
use nvda_remote_go.Prelude.{
  ℕ, ◌<◌, ◌≡◌, refl, ◌∙◌, Bytes, Bool, false, Option, none, some, List, [], ◌∷◌, arith, not, leb,
  ◌||◌, ◌+◌, if◌then◌else◌, filter, bytes_eq, bytes_eq_iff, bytes_eq_refl,
}
use nvda_remote_go.Session.State.{Session}
use nvda_remote_go.Manager.Table.{
  Manager, find_session, remove, close_each, is_expired, expire_inactive, get, close_all,
}

-- No two sessions of the list share an identifier.
abbrev pub Distinct : List Session → Type 0
Distinct [] = Unit {0}
Distinct (s ∷ ss) = (find_session s.id ss ≡ none) × Distinct ss

abbrev pub keep_if : (Session → Bool) → Option Session → Option Session
keep_if p none = none
keep_if p (some s) = if p s then some s else none

pub find_session-id :
    (id : Bytes) (ss : List Session) (s : Session) → find_session id ss ≡ some s → s.id ≡ id
unfolding find_session
find_session-id id [] s h = cc
find_session-id id (x ∷ ss) s h = ground (arith, find_session-id id ss s, bytes_eq_iff x.id id)

pub find_session-filter :
    (p : Session → Bool) (id : Bytes) (ss : List Session)
    → Distinct ss
    → find_session id (filter p ss) ≡ keep_if p (find_session id ss)
unfolding find_session filter
find_session-filter p id [] d = refl
find_session-filter p id (x ∷ ss) d =
    ground (arith, find_session-filter p id ss d.1, bytes_eq_iff x.id id)

pub filter-Distinct :
    (p : Session → Bool) (ss : List Session) → Distinct ss → Distinct (filter p ss)
unfolding filter
filter-Distinct p [] d = tt
filter-Distinct p (x ∷ ss) d =
    ground (arith, filter-Distinct p ss d.1, find_session-filter p x.id ss d.1)

keep_if-other :
    (id j : Bytes) (o : Option Session)
    → ((s : Session) → o ≡ some s → s.id ≡ j)
    → keep_if (λ s. not (bytes_eq s.id id)) o ≡ (if bytes_eq id j then none else o)
keep_if-other id j none h = ground arith
keep_if-other id j (some s) h = ground (arith, h s refl, bytes_eq_iff s.id id, bytes_eq_iff id j)

pub find_session-remove :
    (id j : Bytes) (m : Manager)
    → Distinct m.sessions
    → find_session j (remove id m).sessions
      ≡ (if bytes_eq id j then none else find_session j m.sessions)
unfolding remove
find_session-remove id j m d =
    find_session-filter (λ s. not (bytes_eq s.id id)) j m.sessions d
    ∙ keep_if-other id j (find_session j m.sessions) (find_session-id j m.sessions)

pub remove-Distinct :
    (id : Bytes) (m : Manager) → Distinct m.sessions → Distinct (remove id m).sessions
unfolding remove
remove-Distinct id m d = filter-Distinct (λ s. not (bytes_eq s.id id)) m.sessions d

pub close_each-Distinct :
    (ss : List Session) (m : Manager) → Distinct m.sessions → Distinct (close_each ss m).sessions
unfolding close_each
close_each-Distinct [] m d = d
close_each-Distinct (s ∷ ss) m d = close_each-Distinct ss (remove s.id m) (remove-Distinct s.id m d)

-- Closing a list of sessions removes their identifiers, and no others.
pub find_session-close_each :
    (j : Bytes) (ss : List Session) (m : Manager)
    → Distinct m.sessions
    → find_session j (close_each ss m).sessions
      ≡ elim (find_session j ss) [ none ↦ find_session j m.sessions | some s ↦ none ]
unfolding close_each find_session
find_session-close_each j [] m d = refl
find_session-close_each j (s ∷ ss) m d = ground (
  arith,
  find_session-close_each j ss (remove s.id m) (remove-Distinct s.id m d),
  find_session-remove s.id j m d,
)

abbrev pub survives : ℕ → ℕ → Option Session → Option Session
survives ttl now = keep_if (λ s. not (is_expired ttl now s))

split_expired :
    (ttl now : ℕ) (o : Option Session)
    → elim (keep_if (is_expired ttl now) o) [ none ↦ o | some s ↦ none ] ≡ survives ttl now o
split_expired ttl now none = refl
split_expired ttl now (some s) = ground arith

-- Expiry removes exactly the sessions that are not closed and have been idle for longer than the
-- time to live, where that is positive.
pub find_session-expire_inactive :
    (now : ℕ) (j : Bytes) (m : Manager)
    → Distinct m.sessions
    → 0 < m.config.session_ttl
    → find_session j (expire_inactive now m).sessions
      ≡ survives m.config.session_ttl now (find_session j m.sessions)
unfolding expire_inactive
find_session-expire_inactive now j m d pos =
    let ttl = m.config.session_ttl in
    let old = filter (is_expired ttl now) m.sessions in
    ground (
      arith,
      find_session-close_each j old m d,
      find_session-filter (is_expired ttl now) j m.sessions d,
      split_expired ttl now (find_session j m.sessions),
    )

survives-active :
    (ttl now : ℕ) (o : Option Session)
    → survives ttl now o ≡ keep_if (λ s. s.closed || leb now (s.last_activity + ttl)) o
unfolding is_expired
survives-active ttl now none = refl
survives-active ttl now (some s) = ground arith

-- A lookup at time `now`, in a table with distinct identifiers and a positive time to live, finds
-- the session of that identifier if there is one that is closed or whose last activity is no longer
-- ago than the time to live, and otherwise nothing.
pub get_lem :
    (now : ℕ) (id : Bytes) (m : Manager)
    → Distinct m.sessions
    → 0 < m.config.session_ttl
    → (get now id m).1 ≡ elim (find_session id m.sessions) [
      | none ↦ none
      | some s ↦
          if s.closed || leb now (s.last_activity + m.config.session_ttl) then some s else none
    ]
unfolding get
get_lem now id m d pos =
    find_session-expire_inactive now id m d pos
    ∙ survives-active m.config.session_ttl now (find_session id m.sessions)

none_found : (ss : List Session) → ((j : Bytes) → find_session j ss ≡ none) → ss ≡ []
unfolding find_session
none_found [] h = refl
none_found (s ∷ ss) h = ground (arith, h s.id, bytes_eq_refl s.id)

close_all_finds :
    (j : Bytes) (m : Manager) → Distinct m.sessions → find_session j (close_all m).sessions ≡ none
unfolding close_all
close_all_finds j m d =
    ground (arith, find_session-close_each j m.sessions (record m { sweeping = false }) d)

-- When the server stops, the table with distinct identifiers is emptied.
pub close_all-empty : (m : Manager) → Distinct m.sessions → (close_all m).sessions ≡ []
close_all-empty m d = none_found (close_all m).sessions (λ j. close_all_finds j m d)
