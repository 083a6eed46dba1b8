-- ===== src/Mux/Names.antt =====
-- server/snirouter.go: what the routing rules come to.
use nvda_remote_go.Prelude.{
  ◌≡◌, refl, sym, subst, Bytes, true, false, Option, none, some, List, [], ◌∷◌, ◌++◌, is_empty,
  bytes_eq, bytes_eq_iff, if◌then◌else◌, arith, Option-cases, Bool-cases, inl, inr,
}
use nvda_remote_go.Mux.Routes.{
  SniRoute, Names, target_or_empty, cut, trim_suffix, find_route, route_name, rule_valid, set_named,
  set_cut, set_route, target_of,
}

-- No two rules have the same name.
abbrev pub Unambiguous : List SniRoute → Type 0
Unambiguous [] = Unit {0}
Unambiguous (r ∷ rs) = (find_route r.name rs ≡ none) × Unambiguous rs

find_route-append :
    (n : Bytes) (rs : List SniRoute) (r : SniRoute)
    → find_route n (rs ++ r ∷ []) ≡ elim (find_route n rs) [
      | some q ↦ some q
      | none ↦ if bytes_eq r.name n then some r else none
    ]
unfolding find_route
find_route-append n [] r = ground arith
find_route-append n (q ∷ rs) r = ground (arith, find_route-append n rs r)

append-Unambiguous :
    (rs : List SniRoute) (r : SniRoute)
    → find_route r.name rs ≡ none
    → Unambiguous rs
    → Unambiguous (rs ++ r ∷ [])
unfolding find_route
append-Unambiguous [] r h u = (refl, tt)
append-Unambiguous (q ∷ rs) r h u = elim (Bool-cases (bytes_eq q.name r.name)) [
  | inl same ↦ absurd (let no = rw same at h in cc)
  | inr other ↦ (
    ground (
      arith,
      u.0,
      find_route-append q.name rs r,
      other,
      bytes_eq_iff q.name r.name,
      bytes_eq_iff r.name q.name,
    ),
    append-Unambiguous rs r (rw other at h) u.1,
  )
]

routed :
    (n t asked : Bytes) (rs : List SniRoute)
    → is_empty n ≡ false
    → find_route n rs ≡ none
    → (if is_empty asked
        then []
        else target_or_empty (find_route asked (rs ++ record { name = n; target = t } ∷ [])))
      ≡ (if bytes_eq n asked
          then t
          else if is_empty asked
          then []
          else target_or_empty (find_route asked rs))
routed n t asked rs full free = ground (
  arith,
  full,
  free,
  bytes_eq_iff n asked,
  find_route-append asked rs (record { name = n; target = t }),
)

module _ (names : Names) where
  -- The rules after a rule that is taken.
  set_named-taken :
      (n t : Bytes) (rs : List SniRoute)
      → (set_named names n t rs).1 ≡ true
      → (is_empty n ≡ false)
        × (find_route n rs ≡ none)
        × ((set_named names n t rs).0 ≡ rs ++ record { name = n; target = t } ∷ [])
  set_named-taken n t rs h = elim (Bool-cases (rule_valid names n t rs)) [
    | inr bad ↦ absurd (let no = rw bad at h in cc)
    | inl valid ↦ elim (Option-cases (find_route n rs)) [
      | inr (r, found) ↦ absurd (let no = rw (valid, found) at h in cc)
      | inl free ↦ (ground (arith, valid), free, rw (valid, free) refl)
    ]
  ]

  set_named-left :
      (n t : Bytes) (rs : List SniRoute)
      → (set_named names n t rs).1 ≡ false
      → (set_named names n t rs).0 ≡ rs
  set_named-left n t rs h = elim (Bool-cases (rule_valid names n t rs)) [
    | inr bad ↦ rw bad refl
    | inl valid ↦ elim (Option-cases (find_route n rs)) [
      | inr (r, found) ↦ rw (valid, found) refl
      | inl free ↦ absurd (let no = rw (valid, free) at h in cc)
    ]
  ]

  set_cut-Unambiguous :
      (o : Option (Bytes × Bytes)) (rs : List SniRoute)
      → Unambiguous rs
      → Unambiguous (set_cut names o rs).0
  set_cut-Unambiguous none rs u = u
  set_cut-Unambiguous (some (name, target)) rs u =
      let n = route_name names name in
      let t = names.trim_space target in
      elim (Bool-cases (set_named names n t rs).1) [
        | inl taken ↦
            let r = set_named-taken n t rs taken in
            subst Unambiguous (sym r.2)
              (append-Unambiguous rs (record { name = n; target = t }) r.1 u)
        | inr left ↦ subst Unambiguous (sym (set_named-left n t rs left)) u
      ]

  -- The values of `-sni-route`, one after the other.
  unfoldable pub set_routes : List Bytes → List SniRoute → List SniRoute
  unfolding set_route
  set_routes [] rs = rs
  set_routes (v ∷ vs) rs = set_routes vs (set_route names v rs).0

  -- Whatever values are given, one after the other, no name has two rules.
  pub set_routes-Unambiguous :
      (vs : List Bytes) (rs : List SniRoute) → Unambiguous rs → Unambiguous (set_routes vs rs)
  unfolding set_routes
  set_routes-Unambiguous [] rs u = u
  set_routes-Unambiguous (v ∷ vs) rs u =
      set_routes-Unambiguous vs (set_route names v rs).0 (set_cut-Unambiguous (cut 61 v) rs u)

  -- Once a rule has been taken, a server name leads to its target exactly if the server name, without
  -- one trailing dot and in lower case, is the rule's name, without blanks around it and in lower
  -- case, but with any trailing dot it has; otherwise the server name leads where it led before.
  pub target_of-set_route :
      (v name target : Bytes) (rs : List SniRoute) (asked : Bytes)
      → cut 61 v ≡ some (name, target)
      → (set_route names v rs).1 ≡ true
      → target_of names asked (set_route names v rs).0 ≡ (
          if bytes_eq
            (names.to_lower (names.trim_space name))
            (names.to_lower (trim_suffix 46 asked))
          then names.trim_space target
          else target_of names asked rs)
  unfolding set_route target_of
  target_of-set_route v name target rs asked e taken =
      let r =
        set_named-taken (route_name names name) (names.trim_space target) rs (rw e at taken) in
      rw (e, r.2)
        (routed (route_name names name) (names.trim_space target)
          (names.to_lower (trim_suffix 46 asked)) rs r.0 r.1)
