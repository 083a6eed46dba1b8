-- ===== src/Hub/Delivery.antt =====
-- Who gets a relayed message: the loops over clients, and `SendOthers`.
use nvda_remote_go.Prelude.{
  ℕ, ◌≡◌, refl, Bytes, Bool, true, false, List, [], ◌∷◌, not, ◌&&◌, arith, ◌==◌, if◌then◌else◌,
  contains, Unique,
}
use nvda_remote_go.Hub.State.{Hub, Client, Json, Role, push, send, send_each}
use nvda_remote_go.Hub.Membership.{
  client_role, audience, send_others, nvda_not_connected, is_nil, is_master,
}

pub client-send :
    (id : ℕ) (b : Bytes) (h : Hub) (j : ℕ)
    → (send id b h).client j ≡ (if id == j then push b (h.client j) else h.client j)
unfolding send
client-send id b h j = ground arith

-- A loop that sends to distinct clients gives each of them the message once, but for the one that
-- it skips, and leaves all others alone.
pub client-send_each :
    (ids : List ℕ) (skip : ℕ) (b : Bytes) (h : Hub) (j : ℕ)
    → Unique ids
    → (send_each ids skip b h).client j
      ≡ (if contains j ids && not (j == skip) then push b (h.client j) else h.client j)
unfolding send_each
client-send_each [] skip b h j u = refl
client-send_each (id ∷ ids) skip b h j u = ground (
  arith,
  client-send id b h j,
  client-send_each ids skip b (if id == skip then h else send id b h) j u.1,
)

abbrev pub mutes : Role → Client → Bool
mutes who c = is_master who && not c.authorized

pub nil_contains : (j : ℕ) (xs : List ℕ) → is_nil xs ≡ true → contains j xs ≡ false
nil_contains j [] h = refl
nil_contains j (x ∷ xs) h = cc

-- `SendOthers` from a client of role `who`, to the members that the role is relayed to: `msg` goes
-- once to each of them but the sender, unless the sender is a master that is not authorized; a
-- master with no slave to hear it is told so; and no other client gets anything.
pub client-send_others :
    (json : Json) (r : ℕ) (msg : Bytes) (id : ℕ) (h : Hub) (j : ℕ)
    → let who = client_role id h in
      let clients = audience who (h.channel r) in
      Unique clients
      → (send_others json r msg id h).client j ≡ (
          if contains j clients && not (j == id) && not (mutes who (h.client id))
          then push msg (h.client j)
          else if is_nil clients && is_master who && j == id
          then push nvda_not_connected (h.client j)
          else h.client j)
unfolding send_others
client-send_others json r msg id h j u =
    let who = client_role id h in
    let clients = audience who (h.channel r) in
    ground (
      arith,
      nil_contains j clients,
      client-send id nvda_not_connected h j,
      client-send_each clients id msg h j u,
    )
