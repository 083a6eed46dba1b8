-- ===== src/Manager/Limits.antt =====
-- The limits on the number of sessions, in all and from one address, and the distinct identifiers.
use nvda_remote_go.Prelude.{
  ℕ, zero, suc, ◌≤◌, ◌<◌, ◌≡◌, refl, inl, inr, Bytes, Bool, false, Option, none, some, List, [],
  ◌∷◌, arith, length, filter, length-filter-le, not, bytes_eq, bytes_eq_iff, Option-cases,
  Bool-cases, leb,
}
use nvda_remote_go.Session.State.{Session, new_http_session}
use nvda_remote_go.Manager.Table.{
  Manager, Platform, Draw, Created, find_session, remove, close_each, expire_inactive, count_ip,
  get_ip_from_addr, allocate, create, is_expired, try_draw, over_session_limit, over_ip_limit,
}
use nvda_remote_go.Manager.Expiry.{Distinct, close_each-Distinct}

module _ (platform : Platform) where
  pub record IsWithin (m : Manager) : Type 0 where
    pub distinct : Distinct m.sessions
    pub total : 0 < m.config.max_sessions → length m.sessions ≤ m.config.max_sessions
    pub per_ip :
        (ip : Bytes)
        → 0 < m.config.max_sessions_per_ip
        → count_ip platform ip m.sessions ≤ m.config.max_sessions_per_ip

  count_ip-filter-le :
      (p : Session → Bool) (ip : Bytes) (ss : List Session)
      → count_ip platform ip (filter p ss) ≤ count_ip platform ip ss
  unfolding count_ip filter
  count_ip-filter-le p ip [] = omega arith
  count_ip-filter-le p ip (s ∷ ss) = ground (arith, count_ip-filter-le p ip ss)

  -- Closing sessions takes some away and leaves the rest of the manager alone.
  pub record Shrinks (m n : Manager) : Type 0 where
    pub same_config : n.config ≡ m.config
    pub fewer : length n.sessions ≤ length m.sessions
    pub fewer_per_ip :
        (ip : Bytes) → count_ip platform ip n.sessions ≤ count_ip platform ip m.sessions

  close_each-Shrinks : (ss : List Session) (m : Manager) → Shrinks m (close_each ss m)
  unfolding close_each
  close_each-Shrinks [] m = record {
    same_config = refl;
    fewer = omega arith;
    fewer_per_ip = λ ip. omega arith;
  }
  close_each-Shrinks (s ∷ ss) m =
      let p = λ (t : Session). not (bytes_eq t.id s.id) in
      let r = close_each-Shrinks ss (remove s.id m) in
      record {
        same_config = r.same_config;
        fewer = omega (arith, r.fewer, length-filter-le p m.sessions);
        fewer_per_ip = λ ip. omega (arith, r.fewer_per_ip ip, count_ip-filter-le p ip m.sessions);
      }

  expire_inactive-Shrinks : (now : ℕ) (m : Manager) → Shrinks m (expire_inactive now m)
  unfolding expire_inactive
  expire_inactive-Shrinks now m = elim (Bool-cases (leb m.config.session_ttl 0)) [
    | inl off ↦
        rw off
          (record { same_config = refl; fewer = omega arith; fewer_per_ip = λ ip. omega arith })
    | inr on ↦
        rw on (close_each-Shrinks (filter (is_expired m.config.session_ttl now) m.sessions) m)
  ]

  expire_inactive-Distinct :
      (now : ℕ) (m : Manager) → Distinct m.sessions → Distinct (expire_inactive now m).sessions
  unfolding expire_inactive
  expire_inactive-Distinct now m d =
      ground
        (arith, close_each-Distinct (filter (is_expired m.config.session_ttl now) m.sessions) m d)

  pub expire_inactive-IsWithin :
      (now : ℕ) (m : Manager) → IsWithin m → IsWithin (expire_inactive now m)
  expire_inactive-IsWithin now m v =
      let r = expire_inactive-Shrinks now m in
      record {
        distinct = expire_inactive-Distinct now m v.distinct;
        total = rw r.same_config (λ pos. omega (arith, v.total pos, r.fewer));
        per_ip = λ ip. rw r.same_config (λ pos. omega (arith, v.per_ip ip pos, r.fewer_per_ip ip));
      }

  -- What the allocation loop does to the table: nothing, or one fresh session for `addr`.
  pub data Allocates (addr : Bytes) (m : Manager) : Manager → Type 0 where
    unchanged : Allocates addr m m
    inserted :
        (s : Session)
        → s.remote_addr ≡ addr
        → find_session s.id m.sessions ≡ none
        → Allocates addr m (record m { sessions = s ∷ m.sessions })

  try_draw-Allocates :
      (now : ℕ) (id token : Option Bytes) (addr : Bytes) (m : Manager) (again : Manager × Created)
      → Allocates addr m again.0
      → Allocates addr m (try_draw platform now id token addr m again).0
  unfolding new_http_session
  try_draw-Allocates now none token addr m again h = unchanged
  try_draw-Allocates now (some id) none addr m again h = unchanged
  try_draw-Allocates now (some id) (some token) addr m again h =
      elim (Option-cases (find_session (platform.encode64 id) m.sessions)) [
        | inl free ↦ rw (free, try_draw) (inserted _ refl free)
        | inr (other, taken) ↦ rw (taken, try_draw) h
      ]

  allocate-Allocates :
      (attempts now : ℕ) (draws : ℕ → Draw) (addr : Bytes) (m : Manager)
      → Allocates addr m (allocate platform attempts now draws addr m).0
  unfolding allocate
  allocate-Allocates zero now draws addr m = unchanged
  allocate-Allocates (suc n) now draws addr m =
      try_draw-Allocates now (draws n).id_bytes (draws n).token_bytes addr m
        (allocate platform n now draws addr m) (allocate-Allocates n now draws addr m)

  Allocates-IsWithin :
      (addr : Bytes) (m n : Manager)
      → IsWithin m
      → over_session_limit platform m ≡ false
      → over_ip_limit platform addr m ≡ false
      → Allocates addr m n
      → IsWithin n
  Allocates-IsWithin addr m n v all one unchanged = v
  Allocates-IsWithin addr m n v all one (inserted s e free) = record {
    distinct = (free, v.distinct);
    total = λ pos. ground arith;
    per_ip = λ ip pos.
        unfold count_ip in
        ground (arith, v.per_ip ip pos, bytes_eq_iff (get_ip_from_addr platform s.remote_addr) ip);
  }

  -- A creation keeps the number of open sessions within the limit of the configuration, and the
  -- number from any one address within its own, where these are positive, and gives the new session
  -- an identifier that no open session has; whatever the random source returns.
  pub create-IsWithin :
      (now : ℕ) (draws : ℕ → Draw) (addr : Bytes) (m : Manager)
      → IsWithin m
      → IsWithin (create platform now draws addr m).0
  unfolding create
  create-IsWithin now draws addr m v =
      let m' = expire_inactive now m in
      let v' = expire_inactive-IsWithin now m v in
      elim (Bool-cases (over_session_limit platform m')) [
        | inl full ↦ rw full v'
        | inr room ↦ elim (Bool-cases (over_ip_limit platform addr m')) [
          | inl full ↦ rw (room, full) v'
          | inr room_ip ↦
              rw (room, room_ip)
                (Allocates-IsWithin addr m' _ v' room room_ip
                  (allocate-Allocates 3 now draws addr m'))
        ]
      ]
