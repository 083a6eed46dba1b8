-- ===== src/Geo/Cache.antt =====
-- server/geolocation.go: the cache of locations. The zero time is 0; an address is looked up when the
-- API is set and the address is public, which is a parameter.
use nvda_remote_go.Prelude.{
  ℕ, ◌+◌, Bytes, Bool, true, false, Option, none, some, List, [], ◌∷◌, ◌++◌, codes, ◌||◌, not, ltb,
  is_empty, lookup, put, if◌then◌else◌, bytes_eq,
}

pub record GeoLocation : Type 0 where
  pub city : Bytes
  pub region : Bytes
  pub country : Bytes
  pub country_code : Bytes

abbrev pub no_location : GeoLocation
no_location = record { city = []; region = []; country = []; country_code = [] }

pub record GeoEntry : Type 0 where
  pub location : GeoLocation
  pub expires_at : ℕ
  pub retry_at : ℕ
  pub in_flight : Bool

abbrev pub no_entry : GeoEntry
no_entry = record { location = no_location; expires_at = 0; retry_at = 0; in_flight = false }

abbrev pub GeoCache : Type 0
GeoCache = List (Bytes × GeoEntry)

-- 24 hours and 10 minutes
abbrev pub geo_cache_ttl : ℕ
geo_cache_ttl = 86400000000000

abbrev pub geo_retry_delay : ℕ
geo_retry_delay = 600000000000

abbrev found_entry : Option GeoEntry → GeoEntry
found_entry none = no_entry
found_entry (some e) = e

-- `geoCache[ip]`
abbrev pub entry_of : Bytes → GeoCache → GeoEntry
entry_of ip cache = found_entry (lookup ip cache)

abbrev part : Bytes → List Bytes → List Bytes
part s parts = if is_empty s then parts else s ∷ parts

-- `strings.Join(parts, ", ")`
abbrev joined : List Bytes → Bytes
joined [] = []
joined (p ∷ []) = p
joined (p ∷ q ∷ parts) = p ++ codes ", " ++ joined (q ∷ parts)

abbrev dash_if_none : List Bytes → Bytes
dash_if_none [] = codes "-"
dash_if_none (p ∷ parts) = joined (p ∷ parts)

unfoldable pub display : GeoLocation → Bytes
display g = dash_if_none (part g.city (part g.region (part g.country [])))

-- `requestGeoLocation`: the cache, and whether a lookup starts.
unfoldable pub request_geo_location : (Bytes → Bool) → ℕ → Bytes → GeoCache → GeoCache × Bool
unfolding lookup put
request_geo_location looked_up now ip cache =
    if not (looked_up ip)
    then (cache, false)
    else if (entry_of ip cache).in_flight
        || ltb now (entry_of ip cache).expires_at
        || ltb now (entry_of ip cache).retry_at
    then (cache, false)
    else (put ip (record (entry_of ip cache) { in_flight = true }) cache, true)

abbrev pub answered : ℕ → Option GeoLocation → GeoEntry → GeoEntry
answered now none e = record e {
  in_flight = false;
  location = no_location;
  expires_at = 0;
  retry_at = now + geo_retry_delay;
}
answered now (some location) e = record e {
  in_flight = false;
  location = location;
  expires_at = now + geo_cache_ttl;
  retry_at = 0;
}

-- The end of the goroutine that a lookup runs in.
unfoldable pub complete_lookup : ℕ → Bytes → Option GeoLocation → GeoCache → GeoCache
unfolding lookup put
complete_lookup now ip result cache = put ip (answered now result (entry_of ip cache)) cache

-- What `geoLocationForIP` shows; the last is a location.
pub data Label : Type 0 where
  dash pending unavailable : Label
  located : Bytes → Label

-- `geoLocationForIP`: the cache, whether a lookup starts, and what is shown.
unfoldable pub geo_location_for_ip :
    (Bytes → Bool) → ℕ → Bytes → GeoCache → (GeoCache × Bool) × Label
unfolding request_geo_location display
geo_location_for_ip looked_up now ip cache =
    if not (looked_up ip)
    then ((cache, false), dash)
    else if (entry_of ip cache).in_flight
    then ((cache, false), pending)
    else if ltb now (entry_of ip cache).expires_at
    then ((cache, false), located (display (entry_of ip cache).location))
    else if ltb now (entry_of ip cache).retry_at
    then ((cache, false), unavailable)
    else (request_geo_location looked_up now ip cache, pending)

-- What the API answers, once it is decoded.
pub record Payload : Type 0 where
  pub success : Bool
  pub city : Bytes
  pub region : Bytes
  pub country : Bytes
  pub country_code : Bytes

abbrev pub shown_location : GeoLocation → Option GeoLocation
shown_location g = if bytes_eq (display g) (codes "-") then none else some g

-- The end of `lookupGeoLocation`, with `strings.TrimSpace`: a location, or an error.
unfoldable pub read_location : (Bytes → Bytes) → Payload → Option GeoLocation
unfolding display
read_location trim_space p =
    if p.success
    then shown_location (record {
      city = trim_space p.city;
      region = trim_space p.region;
      country = trim_space p.country;
      country_code = trim_space p.country_code;
    })
    else none
