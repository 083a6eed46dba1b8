-- ===== src/Mux/Routes.antt =====
-- server/snirouter.go: the routing rules, and the server name of a connection. The lower case of a
-- string, the cut of an address and the reader of a ClientHello are parameters.
use nvda_remote_go.Prelude.{
  ℕ, ◌+◌, ◌*◌, Bytes, Bool, true, false, Option, none, some, List, [], ◌∷◌, ◌++◌, codes, ◌&&◌, ◌||◌,
  not, ltb, leb, ◌==◌, length, take, is_empty, bytes_eq, contains_any, if◌then◌else◌,
}

pub record SniRoute : Type 0 where
  pub name : Bytes
  pub target : Bytes

-- `strings.ToLower`, `strings.TrimSpace`, `net.SplitHostPort`, and the server name that `crypto/tls`
-- reads of a ClientHello (empty when it reads none).
pub record Names : Type 0 where
  pub to_lower : Bytes → Bytes
  pub trim_space : Bytes → Bytes
  pub split_host_port : Bytes → Option (Bytes × Bytes)
  pub hello_name : Bytes → Bytes

abbrev cut_more : ℕ → Option (Bytes × Bytes) → Option (Bytes × Bytes)
cut_more x none = none
cut_more x (some (before, after)) = some (x ∷ before, after)

-- `strings.Cut` by one byte
unfoldable pub cut : ℕ → Bytes → Option (Bytes × Bytes)
cut c [] = none
cut c (x ∷ s) = let rest = cut c s in if x == c then some ([], s) else cut_more x rest

-- `strings.TrimSuffix` by one byte
unfoldable pub trim_suffix : ℕ → Bytes → Bytes
trim_suffix c [] = []
trim_suffix c (x ∷ []) = if x == c then [] else x ∷ []
trim_suffix c (x ∷ y ∷ s) = x ∷ trim_suffix c (y ∷ s)

unfoldable pub find_route : Bytes → List SniRoute → Option SniRoute
find_route name [] = none
find_route name (r ∷ rs) = if bytes_eq r.name name then some r else find_route name rs

abbrev target_valid : Option (Bytes × Bytes) → Bool
target_valid none = false
target_valid (some (host, port)) = not (is_empty host) && not (is_empty port)

abbrev pub target_or_empty : Option SniRoute → Bytes
target_or_empty none = []
target_or_empty (some r) = r.target

module _ (names : Names) where
  abbrev pub route_name : Bytes → Bytes
  route_name name = names.to_lower (names.trim_space name)

  abbrev pub rule_valid : Bytes → Bytes → List SniRoute → Bool
  rule_valid name target routes =
      not (is_empty name)
      && not (contains_any (codes " " ++ 9 ∷ codes "/") name)
      && target_valid (names.split_host_port target)

  abbrev pub set_named : Bytes → Bytes → List SniRoute → List SniRoute × Bool
  set_named name target routes =
      if rule_valid name target routes
      then elim (find_route name routes) [
        | some r ↦ (routes, false)
        | none ↦ (routes ++ record { name = name; target = target } ∷ [], true)
      ]
      else (routes, false)

  abbrev pub set_cut : Option (Bytes × Bytes) → List SniRoute → List SniRoute × Bool
  set_cut none routes = (routes, false)
  set_cut (some (name, target)) routes =
      set_named (route_name name) (names.trim_space target) routes

  -- `SNIRouteList.Set`: the rules afterwards, and whether the rule was taken.
  unfoldable pub set_route : Bytes → List SniRoute → List SniRoute × Bool
  unfolding cut find_route
  set_route v routes = set_cut (cut 61 v) routes

  -- `SNIRouteList.target`; empty where there is none.
  unfoldable pub target_of : Bytes → List SniRoute → Bytes
  unfolding trim_suffix find_route
  target_of name routes =
      if is_empty (names.to_lower (trim_suffix 46 name))
      then []
      else target_or_empty (find_route (names.to_lower (trim_suffix 46 name)) routes)

  abbrev pub sni_peek_size : ℕ
  sni_peek_size = 20480

  -- The bytes of a record whose header says this length, if they are there and not too many.
  abbrev pub hello_of : ℕ → Bytes → Bytes
  hello_of size s =
      if leb size 0 || ltb sni_peek_size (5 + size)
      then []
      else if ltb (length s) (5 + size)
      then []
      else names.hello_name (take (5 + size) s)

  -- `peekServerName`, of the bytes that the connection sends before the deadline.
  unfoldable pub peek_server_name : Bytes → Bytes
  peek_server_name (kind ∷ major ∷ minor ∷ high ∷ low ∷ s) =
      if kind == 22 then hello_of (high * 256 + low) (kind ∷ major ∷ minor ∷ high ∷ low ∷ s) else []
  peek_server_name _ = []
