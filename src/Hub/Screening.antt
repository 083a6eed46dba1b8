-- ===== src/Hub/Screening.antt =====
-- What a client may declare and how often it may signal: `filterCapabilities` and `AllowSignaling`.
use nvda_remote_go.Prelude.{
  ℕ, suc, ◌+◌, ◌-◌, ◌≤◌, ◌≡◌, refl, Bytes, Bool, true, false, some, List, [], ◌∷◌, ◌++◌, ◌&&◌, ◌||◌,
  arith, ◌==◌, leb, if◌then◌else◌, length, length-append, bytes_eq_iff, Bool-cases, inl, inr,
}
use nvda_remote_go.Hub.State.{Client}
use nvda_remote_go.Hub.Client.{mentions, allow_signaling, signaling_window, signaling_window_max}
use nvda_remote_go.Hub.Signaling.{
  cap_screen_share, cap_input_control, max_capabilities, is_known_capability, filter_from,
  filter_capabilities,
}

mentions-append :
    (v : Bytes) (xs ys : List Bytes) → mentions v (xs ++ ys) ≡ (mentions v xs || mentions v ys)
unfolding mentions
mentions-append v [] ys = refl
mentions-append v (x ∷ xs) ys = ground (arith, mentions-append v xs ys)

-- No capability stands twice.
abbrev pub AllOnce : List Bytes → Type 0
AllOnce [] = Unit {0}
AllOnce (x ∷ xs) = (mentions x xs ≡ false) × AllOnce xs

AllOnce-push :
    (v : Bytes) (xs : List Bytes) → mentions v xs ≡ false → AllOnce xs → AllOnce (xs ++ v ∷ [])
unfolding mentions
AllOnce-push v [] h u = (refl, tt)
AllOnce-push v (x ∷ xs) h u =
    ground
      (arith, AllOnce-push v xs, mentions-append x xs (v ∷ []), bytes_eq_iff v x, bytes_eq_iff x v)

abbrev one_if : Bool → ℕ
one_if true = 1
one_if false = 0

-- What has been kept: known capabilities only, so at most two, and each once.
record IsScreened (kept : List Bytes) : Type 0 where
  once : AllOnce kept
  known : (v : Bytes) → mentions v kept ≡ true → is_known_capability v ≡ true
  counted :
      length kept
      ≡ one_if (mentions cap_screen_share kept) + one_if (mentions cap_input_control kept)

push-IsScreened :
    (kept : List Bytes) (x : Bytes)
    → IsScreened kept
    → is_known_capability x ≡ true
    → mentions x kept ≡ false
    → IsScreened (kept ++ x ∷ [])
unfolding is_known_capability mentions
push-IsScreened kept x k kn new = record {
  once = AllOnce-push x kept new k.once;
  known = λ v e. ground (arith, k.known v, mentions-append v kept (x ∷ []), bytes_eq_iff x v);
  counted = ground (
    arith,
    k.counted,
    length-append kept (x ∷ []),
    mentions-append cap_screen_share kept (x ∷ []),
    mentions-append cap_input_control kept (x ∷ []),
    bytes_eq_iff x cap_screen_share,
    bytes_eq_iff x cap_input_control,
  );
}

short : (kept : List Bytes) → IsScreened kept → length kept ≤ 2
short kept k = ground (arith, k.counted)

-- The limit on the number kept is never reached.
filter_from-IsScreened :
    (kept vs : List Bytes)
    → IsScreened kept
    → IsScreened (filter_from kept vs)
      × ((v : Bytes)
          → mentions v (filter_from kept vs)
            ≡ (mentions v kept || is_known_capability v && mentions v vs))
unfolding filter_from mentions
filter_from-IsScreened kept [] k = (k, λ v. ground arith)
filter_from-IsScreened kept (x ∷ vs) k = elim (Bool-cases (is_known_capability x)) [
  | inr unknown ↦
      let rest = filter_from-IsScreened kept vs k in
      rw unknown (rest.0, λ v. ground (arith, rest.1 v, unknown, bytes_eq_iff x v))
  | inl kn ↦ elim (Bool-cases (mentions x kept)) [
    | inl old ↦
        let rest = filter_from-IsScreened kept vs k in
        rw (kn, old) (rest.0, λ v. ground (arith, rest.1 v, old, bytes_eq_iff x v))
    | inr new ↦
        let k' = push-IsScreened kept x k kn new in
        let rest = filter_from-IsScreened (kept ++ x ∷ []) vs k' in
        let below : (length (kept ++ x ∷ []) == max_capabilities) ≡ false =
          ground (arith, short (kept ++ x ∷ []) k') in
        rw (kn, new, below)
          (
            rest.0,
            λ v. ground (arith, rest.1 v, kn, mentions-append v kept (x ∷ []), bytes_eq_iff x v),
          )
  ]
]

-- The filter keeps exactly the declared capabilities that the server knows, each once; so there are
-- at most two of them.
pub filter_capabilities_lem :
    (cs : List Bytes)
    → ((v : Bytes) → mentions v (filter_capabilities cs) ≡ (is_known_capability v && mentions v cs))
      × AllOnce (filter_capabilities cs)
      × (length (filter_capabilities cs) ≤ 2)
unfolding filter_capabilities
filter_capabilities_lem cs =
    let r =
      filter_from-IsScreened [] cs
        (unfold mentions in record { once = tt; known = λ v e. cc; counted = refl }) in
    (λ v. unfold mentions in r.1 v, r.0.once, short (filter_capabilities cs) r.0)

-- The client after signaling at these times.
unfoldable pub signal_each : List ℕ → Client → Client
unfolding allow_signaling
signal_each [] c = c
signal_each (t ∷ ts) c = signal_each ts (allow_signaling t c).0

-- How many of the messages are let through.
unfoldable pub count_allowed : List ℕ → Client → ℕ
unfolding allow_signaling
count_allowed [] c = 0
count_allowed (t ∷ ts) c =
    let rest = count_allowed ts (allow_signaling t c).0 in
    if (allow_signaling t c).1 then suc rest else rest

abbrev pub all_within : ℕ → List ℕ → Bool
all_within start [] = true
all_within start (t ∷ ts) = leb t (start + signaling_window) && all_within start ts

count_allowed-window :
    (start : ℕ) (ts : List ℕ) (c : Client)
    → c.signal_window ≡ some start
    → all_within start ts ≡ true
    → count_allowed ts c ≤ signaling_window_max - c.signal_count
unfolding count_allowed allow_signaling
count_allowed-window start [] c w h = omega arith
count_allowed-window start (t ∷ ts) c w h =
    ground (arith, w, count_allowed-window start ts (allow_signaling t c).0)

abbrev pub all_between : ℕ → List ℕ → Bool
all_between from [] = true
all_between from (t ∷ ts) = leb from t && leb t (from + signaling_window) && all_between from ts

all_within-later :
    (from start : ℕ) (ts : List ℕ)
    → from ≤ start
    → all_between from ts ≡ true
    → all_within start ts ≡ true
all_within-later from start [] le h = refl
all_within-later from start (t ∷ ts) le h = ground (arith, all_within-later from start ts le)

count_allowed-split :
    (from : ℕ) (ts : List ℕ) (c : Client)
    → all_between from ts ≡ true
    → count_allowed ts c ≤ (signaling_window_max - c.signal_count) + signaling_window_max
unfolding count_allowed allow_signaling
count_allowed-split from [] c h = omega arith
count_allowed-split from (t ∷ ts) c h = ground (
  arith,
  all_within-later from t ts,
  count_allowed-window t ts (allow_signaling t c).0,
  count_allowed-split from ts (allow_signaling t c).0,
)

-- Whatever its past, a client gets at most 500 signaling messages through in any ten seconds, twice
-- the limit of one window.
pub count_allowed-interval :
    (from : ℕ) (ts : List ℕ) (c : Client) → all_between from ts ≡ true → count_allowed ts c ≤ 500
count_allowed-interval from ts c h = omega (arith, count_allowed-split from ts c h)
