-- ===== src/Hub/Invariant.antt =====
-- What the two tables, the channels and the clients say of one another.
use nvda_remote_go.Prelude.{
  arith, refl, ℕ, ◌<◌, ◌≡◌, ap, ◌∙◌, Bytes, Bool, true, false, Option, none, some, ◌&&◌, ◌==◌,
  contains, Unique, lookup,
}
use nvda_remote_go.Hub.State.{edit_client, Hub, Client, Role, master, slave, role}
use nvda_remote_go.Hub.Membership.{is_nil}
use nvda_remote_go.Hub.Silent.{SameButSent}

abbrev pub is_ref : ℕ → Option ℕ → Bool
is_ref r none = false
is_ref r (some q) = r == q

abbrev pub is_in_masters : Role → Bool
is_in_masters master = true
is_in_masters _ = false

abbrev pub is_in_slaves : Role → Bool
is_in_slaves slave = true
is_in_slaves _ = false

-- A channel's three maps hold each member once, by its role.
pub record IsTidy (h : Hub) (r : ℕ) : Type 0 where
  pub all_once : Unique (h.channel r).all
  pub masters_once : Unique (h.channel r).masters
  pub slaves_once : Unique (h.channel r).slaves
  pub members : (j : ℕ) → contains j (h.channel r).all ≡ is_ref r (h.client j).channel
  pub masters :
      (j : ℕ)
      → contains j (h.channel r).masters
        ≡ (is_ref r (h.client j).channel && is_in_masters (role (h.client j).connection_type))
  pub slaves :
      (j : ℕ)
      → contains j (h.channel r).slaves
        ≡ (is_ref r (h.client j).channel && is_in_slaves (role (h.client j).connection_type))

pub record IsConsistent (h : Hub) : Type 0 where
  pub tidy : (r : ℕ) → IsTidy h r
  -- A name of the table is that of a channel in use; a channel with members is in the table.
  pub named :
      (name : Bytes) (r : ℕ)
      → lookup name h.channels ≡ some r
      → ((h.channel r).name ≡ name)
        × ((h.channel r).usable ≡ true)
        × (is_nil (h.channel r).all ≡ false)
  pub listed :
      (r : ℕ)
      → is_nil (h.channel r).all ≡ false
      → (lookup (h.channel r).name h.channels ≡ some r) × (r < h.next_channel)
  pub known : (j : ℕ) → contains j h.registered ≡ false → (h.client j).channel ≡ none
  pub numbered : (j : ℕ) → h.last_id < j → contains j h.registered ≡ false
  pub registered_once : Unique h.registered
  pub alive : h.panicked ≡ false

-- All that the invariant reads: two hubs that agree on it are consistent together.
pub record SamePlaces (h i : Hub) : Type 0 where
  pub channel_store : i.channel ≡ h.channel
  pub channel_table : i.channels ≡ h.channels
  pub registered_set : i.registered ≡ h.registered
  pub last : i.last_id ≡ h.last_id
  pub next : i.next_channel ≡ h.next_channel
  pub panic : i.panicked ≡ h.panicked
  pub places : (j : ℕ) → (i.client j).channel ≡ (h.client j).channel
  pub types : (j : ℕ) → (i.client j).connection_type ≡ (h.client j).connection_type

pub SamePlaces-trans : {h i k : Hub} → SamePlaces h i → SamePlaces i k → SamePlaces h k
SamePlaces-trans p q = record {
  channel_store = q.channel_store ∙ p.channel_store;
  channel_table = q.channel_table ∙ p.channel_table;
  registered_set = q.registered_set ∙ p.registered_set;
  last = q.last ∙ p.last;
  next = q.next ∙ p.next;
  panic = q.panic ∙ p.panic;
  places = λ j. q.places j ∙ p.places j;
  types = λ j. q.types j ∙ p.types j;
}

SamePlaces-IsTidy : {h i : Hub} → SamePlaces h i → (r : ℕ) → IsTidy h r → IsTidy i r
SamePlaces-IsTidy s r t = record {
  all_once = rw s.channel_store t.all_once;
  masters_once = rw s.channel_store t.masters_once;
  slaves_once = rw s.channel_store t.slaves_once;
  members = λ j. rw (s.channel_store, s.places j) (t.members j);
  masters = λ j. rw (s.channel_store, s.places j, s.types j) (t.masters j);
  slaves = λ j. rw (s.channel_store, s.places j, s.types j) (t.slaves j);
}

pub SamePlaces-IsConsistent : {h i : Hub} → SamePlaces h i → IsConsistent h → IsConsistent i
SamePlaces-IsConsistent s v = record {
  tidy = λ r. SamePlaces-IsTidy s r (v.tidy r);
  named = λ name r. rw (s.channel_table, s.channel_store) (v.named name r);
  listed = λ r. rw (s.channel_store, s.channel_table, s.next) (v.listed r);
  known = λ j. rw (s.registered_set, s.places j) (v.known j);
  numbered = λ j. rw (s.last, s.registered_set) (v.numbered j);
  registered_once = rw s.registered_set v.registered_once;
  alive = s.panic ∙ v.alive;
}

-- It reads nothing of what has been sent.
pub SameButSent-SamePlaces : {h i : Hub} → SameButSent h i → SamePlaces h i
SameButSent-SamePlaces s = record {
  channel_store = s.channel_store;
  channel_table = s.channel_table;
  registered_set = s.registered_set;
  last = s.last;
  next = s.next;
  panic = s.panic;
  places = λ j. ap (λ (c : Client). c.channel) (s.clients j);
  types = λ j. ap (λ (c : Client). c.connection_type) (s.clients j);
}

pub SameButSent-channel :
    {h i : Hub} → SameButSent h i → (j : ℕ) → (i.client j).channel ≡ (h.client j).channel
SameButSent-channel s = (SameButSent-SamePlaces s).places

pub SameButSent-IsTidy : {h i : Hub} → SameButSent h i → (r : ℕ) → IsTidy h r → IsTidy i r
SameButSent-IsTidy s = SamePlaces-IsTidy (SameButSent-SamePlaces s)

pub SameButSent-IsConsistent : {h i : Hub} → SameButSent h i → IsConsistent h → IsConsistent i
SameButSent-IsConsistent s = SamePlaces-IsConsistent (SameButSent-SamePlaces s)

-- A client may change in all but its channel and its type.
pub edit_client-SamePlaces :
    (id : ℕ) (f : Client → Client) (h : Hub)
    → (f (h.client id)).channel ≡ (h.client id).channel
    → (f (h.client id)).connection_type ≡ (h.client id).connection_type
    → SamePlaces h (edit_client id f h)
edit_client-SamePlaces id f h c t = record {
  channel_store = refl;
  channel_table = refl;
  registered_set = refl;
  last = refl;
  next = refl;
  panic = refl;
  places = λ j. ground (arith, c);
  types = λ j. ground (arith, t);
}
