-- ===== src/Hub/Silent.antt =====
-- The parts of the hub that sending does not touch.
use nvda_remote_go.Prelude.{
  ℕ, ◌≡◌, refl, ◌∙◌, Bytes, Bool, true, false, Option, none, some, List, [], ◌∷◌, arith, ◌==◌,
  if◌then◌else◌, Bool-cases, inl, inr,
}
use nvda_remote_go.Hub.State.{
  Hub, Client, Json, push, send, send_each, send_encoded, send_each_encoded,
}
use nvda_remote_go.Hub.Membership.{
  announce, welcome, greet, announce_left, send_others, nvda_not_connected,
}

-- All of a client but what has been sent to it.
abbrev pub unsent : Client → Client
unsent c = record c { sent = [] }

pub record SameButSent (h h' : Hub) : Type 0 where
  pub channel_store : h'.channel ≡ h.channel
  pub channel_table : h'.channels ≡ h.channels
  pub registered_set : h'.registered ≡ h.registered
  pub last : h'.last_id ≡ h.last_id
  pub next : h'.next_channel ≡ h.next_channel
  pub options : h'.settings ≡ h.settings
  pub blocks : h'.blocked ≡ h.blocked
  pub panic : h'.panicked ≡ h.panicked
  pub clients : (j : ℕ) → unsent (h'.client j) ≡ unsent (h.client j)

pub SameButSent-refl : (h : Hub) → SameButSent h h
SameButSent-refl h = record {
  channel_store = refl;
  channel_table = refl;
  registered_set = refl;
  last = refl;
  next = refl;
  options = refl;
  blocks = refl;
  panic = refl;
  clients = λ j. refl;
}

pub SameButSent-trans : {h i k : Hub} → SameButSent h i → SameButSent i k → SameButSent h k
SameButSent-trans p q = record {
  channel_store = q.channel_store ∙ p.channel_store;
  channel_table = q.channel_table ∙ p.channel_table;
  registered_set = q.registered_set ∙ p.registered_set;
  last = q.last ∙ p.last;
  next = q.next ∙ p.next;
  options = q.options ∙ p.options;
  blocks = q.blocks ∙ p.blocks;
  panic = q.panic ∙ p.panic;
  clients = λ j. q.clients j ∙ p.clients j;
}

if-SameButSent :
    (b : Bool) {h i k : Hub}
    → SameButSent h i
    → SameButSent h k
    → SameButSent h (if b then i else k)
if-SameButSent true p q = p
if-SameButSent false p q = q

unsent-push : (b : Bytes) (c : Client) → unsent (push b c) ≡ unsent c
unfolding push
unsent-push b c = ground arith

pub send-SameButSent : (id : ℕ) (b : Bytes) (h : Hub) → SameButSent h (send id b h)
unfolding send
send-SameButSent id b h = record {
  channel_store = refl;
  channel_table = refl;
  registered_set = refl;
  last = refl;
  next = refl;
  options = refl;
  blocks = refl;
  panic = refl;
  clients = λ j. ground (arith, unsent-push b (h.client id));
}

pub send_each-SameButSent :
    (ids : List ℕ) (skip : ℕ) (b : Bytes) (h : Hub) → SameButSent h (send_each ids skip b h)
unfolding send_each
send_each-SameButSent [] skip b h = SameButSent-refl h
send_each-SameButSent (id ∷ ids) skip b h = elim (Bool-cases (id == skip)) [
  | inl skipped ↦ rw skipped (send_each-SameButSent ids skip b h)
  | inr told ↦
      rw told (
        SameButSent-trans (send-SameButSent id b h)
          (send_each-SameButSent ids skip b (send id b h)))
]

pub send_encoded-SameButSent :
    (o : Option Bytes) (id : ℕ) (h : Hub) → SameButSent h (send_encoded o id h)
send_encoded-SameButSent none id h = SameButSent-refl h
send_encoded-SameButSent (some b) id h = send-SameButSent id b h

pub send_each_encoded-SameButSent :
    (o : Option Bytes) (ids : List ℕ) (skip : ℕ) (h : Hub)
    → SameButSent h (send_each_encoded o ids skip h)
send_each_encoded-SameButSent none ids skip h = SameButSent-refl h
send_each_encoded-SameButSent (some b) ids skip h = send_each-SameButSent ids skip b h

module _ (json : Json) where
  pub announce-SameButSent : (r id : ℕ) (h : Hub) → SameButSent h (announce json r id h)
  unfolding announce
  announce-SameButSent r id h = send_each_encoded-SameButSent _ _ id h

  pub welcome-SameButSent : (r id : ℕ) (h : Hub) → SameButSent h (welcome json r id h)
  unfolding welcome
  welcome-SameButSent r id h = send_encoded-SameButSent _ id h

  pub greet-SameButSent :
      (r id : ℕ) (password : Bytes) (h : Hub) → SameButSent h (greet json r id password h)
  unfolding greet
  greet-SameButSent r id password h =
      if-SameButSent _ (SameButSent-refl h) (send_encoded-SameButSent _ id h)

  pub announce_left-SameButSent : (r id : ℕ) (h : Hub) → SameButSent h (announce_left json r id h)
  unfolding announce_left
  announce_left-SameButSent r id h = send_each_encoded-SameButSent _ _ id h

  pub send_others-SameButSent :
      (r : ℕ) (msg : Bytes) (id : ℕ) (h : Hub) → SameButSent h (send_others json r msg id h)
  unfolding send_others
  send_others-SameButSent r msg id h =
      if-SameButSent _
        (if-SameButSent _ (send-SameButSent id nvda_not_connected h) (SameButSent-refl h))
        (if-SameButSent _ (SameButSent-refl h) (send_each-SameButSent _ id msg h))
