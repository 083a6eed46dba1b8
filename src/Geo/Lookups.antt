-- ===== src/Geo/Lookups.antt =====
-- server/geolocation.go: how many lookups of an address run at once, and when the next one starts.
use nvda_remote_go.Prelude.{
  lookup, subst, sym, put, ◌⊎◌, ◌&&◌, leb, bytes_eq_refl, ℕ, ◌+◌, ◌≡◌, refl, Bytes, Bool, true,
  false, Option, none, some, List, [], ◌∷◌, bytes_eq, bytes_eq_iff, lookup-put, if◌then◌else◌,
  arith, Option-cases, inl, inr,
}
use nvda_remote_go.Geo.Cache.{
  GeoEntry, answered, GeoLocation, GeoCache, entry_of, request_geo_location, complete_lookup,
  geo_location_for_ip, geo_cache_ttl, geo_retry_delay,
}

-- The cache, and the addresses whose lookups are running.
pub record GeoWorld : Type 0 where
  pub cache : GeoCache
  pub running : List Bytes

pub data GeoEvent : Type 0 where
  requests : ℕ → Bytes → GeoEvent
  shows : ℕ → Bytes → GeoEvent
  completes : ℕ → Bytes → Option GeoLocation → GeoEvent

abbrev pub count : Bytes → List Bytes → ℕ
count ip [] = 0
count ip (x ∷ xs) = (if bytes_eq x ip then 1 else 0) + count ip xs

-- One running lookup of the address ends, if there is one.
unfoldable pub remove_one : Bytes → List Bytes → Option (List Bytes)
remove_one ip [] = none
remove_one ip (x ∷ xs) =
    let rest = remove_one ip xs in
    if bytes_eq x ip then some xs else elim rest [ none ↦ none | some ys ↦ some (x ∷ ys) ]

abbrev pub started : Bytes → GeoWorld → GeoCache × Bool → GeoWorld
started ip w (cache, true) = record { cache = cache; running = ip ∷ w.running }
started ip w (cache, false) = record { cache = cache; running = w.running }

abbrev pub ended : ℕ → Bytes → Option GeoLocation → GeoWorld → Option (List Bytes) → GeoWorld
ended now ip result w none = w
ended now ip result w (some rest) = record {
  cache = complete_lookup now ip result w.cache;
  running = rest;
}

module _ (looked_up : Bytes → Bool) where
  -- A lookup that is not running cannot end.
  unfoldable pub happen : GeoWorld → GeoEvent → GeoWorld
  unfolding request_geo_location geo_location_for_ip complete_lookup remove_one
  happen w (requests now ip) = started ip w (request_geo_location looked_up now ip w.cache)
  happen w (shows now ip) = started ip w (geo_location_for_ip looked_up now ip w.cache).0
  happen w (completes now ip result) = ended now ip result w (remove_one ip w.running)

  unfoldable pub happen_each : GeoWorld → List GeoEvent → GeoWorld
  happen_each w [] = w
  happen_each w (e ∷ es) = happen_each (happen w e) es

  -- The lookups that run are those that the cache says are in flight, one each.
  abbrev pub IsTracked : GeoWorld → Type 0
  IsTracked w =
      (ip : Bytes) → count ip w.running ≡ (if (entry_of ip w.cache).in_flight then 1 else 0)

  entry_of-put :
      (ip j : Bytes) (e : GeoEntry) (cache : GeoCache)
      → entry_of j (put ip e cache) ≡ (if bytes_eq ip j then e else entry_of j cache)
  entry_of-put ip j e cache = ground (arith, lookup-put ip j e cache)

  -- A request changes nothing, or marks an address that was not in flight.
  request-cases :
      (now : ℕ) (ip : Bytes) (cache : GeoCache)
      → (request_geo_location looked_up now ip cache ≡ (cache, false))
        ⊎ (((entry_of ip cache).in_flight ≡ false)
            × (request_geo_location looked_up now ip cache
                ≡ (put ip (record (entry_of ip cache) { in_flight = true }) cache, true)))
  unfolding request_geo_location
  request-cases now ip cache = ground arith

  shows-cases :
      (now : ℕ) (ip : Bytes) (cache : GeoCache)
      → ((geo_location_for_ip looked_up now ip cache).0 ≡ (cache, false))
        ⊎ ((geo_location_for_ip looked_up now ip cache).0
            ≡ request_geo_location looked_up now ip cache)
  unfolding geo_location_for_ip
  shows-cases now ip cache = ground arith

  marked-IsTracked :
      (ip : Bytes) (w : GeoWorld)
      → IsTracked w
      → (entry_of ip w.cache).in_flight ≡ false
      → IsTracked
          (started ip w (put ip (record (entry_of ip w.cache) { in_flight = true }) w.cache, true))
  marked-IsTracked ip w v idle j = ground (
    arith,
    v j,
    v ip,
    idle,
    bytes_eq_iff ip j,
    lookup-put ip j (record (entry_of ip w.cache) { in_flight = true }) w.cache,
  )

  request-IsTracked :
      (now : ℕ) (ip : Bytes) (w : GeoWorld)
      → IsTracked w
      → IsTracked (started ip w (request_geo_location looked_up now ip w.cache))
  request-IsTracked now ip w v = elim (request-cases now ip w.cache) [
    | inl same ↦ subst (λ x. IsTracked (started ip w x)) (sym same) v
    | inr marked ↦
        subst (λ x. IsTracked (started ip w x)) (sym marked.1) (marked-IsTracked ip w v marked.0)
  ]

  count-remove_one :
      (ip j : Bytes) (xs ys : List Bytes)
      → remove_one ip xs ≡ some ys
      → count j xs ≡ (if bytes_eq ip j then 1 else 0) + count j ys
  unfolding remove_one
  count-remove_one ip j [] ys h = cc
  count-remove_one ip j (x ∷ xs) ys h = elim (Option-cases (remove_one ip xs)) [
    | inl gone ↦ ground (arith, h, gone, bytes_eq_iff x ip)
    | inr (zs, found) ↦
        ground (arith, count-remove_one ip j xs zs found, h, found, bytes_eq_iff x ip)
  ]

  idle_after :
      (now : ℕ) (result : Option GeoLocation) (e : GeoEntry)
      → (answered now result e).in_flight ≡ false
  idle_after now none e = refl
  idle_after now (some l) e = refl

  completed-IsTracked :
      (now : ℕ) (ip : Bytes) (result : Option GeoLocation) (w : GeoWorld) (rest : List Bytes)
      → IsTracked w
      → remove_one ip w.running ≡ some rest
      → IsTracked (ended now ip result w (some rest))
  unfolding complete_lookup
  completed-IsTracked now ip result w rest v e j = ground (
    arith,
    v j,
    v ip,
    bytes_eq_iff ip j,
    count-remove_one ip j w.running rest e,
    idle_after now result (entry_of ip w.cache),
    lookup-put ip j (answered now result (entry_of ip w.cache)) w.cache,
  )

  happen-IsTracked : (w : GeoWorld) (e : GeoEvent) → IsTracked w → IsTracked (happen w e)
  unfolding happen
  happen-IsTracked w (requests now ip) v = request-IsTracked now ip w v
  happen-IsTracked w (shows now ip) v = elim (shows-cases now ip w.cache) [
    | inl same ↦ subst (λ x. IsTracked (started ip w x)) (sym same) v
    | inr asked ↦ subst (λ x. IsTracked (started ip w x)) (sym asked) (request-IsTracked now ip w v)
  ]
  happen-IsTracked w (completes now ip result) v = elim (Option-cases (remove_one ip w.running)) [
    | inl idle ↦ subst (λ x. IsTracked (ended now ip result w x)) (sym idle) v
    | inr (rest, e) ↦
        subst (λ x. IsTracked (ended now ip result w x)) (sym e)
          (completed-IsTracked now ip result w rest v e)
  ]

  happen_each-IsTracked :
      (w : GeoWorld) (es : List GeoEvent) → IsTracked w → IsTracked (happen_each w es)
  unfolding happen_each
  happen_each-IsTracked w [] v = v
  happen_each-IsTracked w (e ∷ es) v =
      happen_each-IsTracked (happen w e) es (happen-IsTracked w e v)

  abbrev pub fresh : GeoWorld
  fresh = record { cache = []; running = [] }

  -- From an empty cache on, through any sequence of requests, displays and ends of lookups, at most
  -- one lookup of an address runs at a time, and one does exactly while the cache says so.
  pub running_once :
      (es : List GeoEvent) (ip : Bytes)
      → count ip (happen_each fresh es).running
        ≡ (if (entry_of ip (happen_each fresh es).cache).in_flight then 1 else 0)
  unfolding lookup
  running_once es = happen_each-IsTracked fresh es (λ ip. refl)

  -- The delay after a lookup: a day after one that found something, ten minutes after another.
  abbrev pub delay_after : Option GeoLocation → ℕ
  delay_after none = geo_retry_delay
  delay_after (some location) = geo_cache_ttl

  -- After a lookup has ended, the next one of that address starts exactly from the end of the delay
  -- on, if the address is one that is looked up; what is known of other addresses stays.
  pub request-complete_lookup :
      (t now : ℕ) (ip j : Bytes) (result : Option GeoLocation) (cache : GeoCache)
      → ((request_geo_location looked_up now ip (complete_lookup t ip result cache)).1
          ≡ (looked_up ip && leb (t + delay_after result) now))
        × (entry_of j (complete_lookup t ip result cache) ≡ (
            if bytes_eq ip j
            then entry_of ip (complete_lookup t ip result cache)
            else entry_of j cache))
  unfolding request_geo_location complete_lookup
  request-complete_lookup t now ip j none cache = ground (
    arith,
    bytes_eq_refl ip,
    lookup-put ip ip (answered t none (entry_of ip cache)) cache,
    lookup-put ip j (answered t none (entry_of ip cache)) cache,
  )
  request-complete_lookup t now ip j (some l) cache = ground (
    arith,
    bytes_eq_refl ip,
    lookup-put ip ip (answered t (some l) (entry_of ip cache)) cache,
    lookup-put ip j (answered t (some l) (entry_of ip cache)) cache,
  )
