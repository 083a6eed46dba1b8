-- ===== src/Hub/Joining.antt =====
-- A client that is in no channel joins one: what `Add` does to the tables.
use nvda_remote_go.Prelude.{
  ℕ, ◌≡◌, refl, ◌∙◌, Bytes, true, false, none, some, ◌∷◌, ◌&&◌, ◌||◌, arith, ◌==◌, if◌then◌else◌,
  contains, Unique, contains-insert, insert-Unique,
}
use nvda_remote_go.Hub.State.{Hub, Channel, Json, Role, master, slave, other}
use nvda_remote_go.Hub.Client.{set_authorized, set_channel}
use nvda_remote_go.Hub.Channel.{add_to_role, authorizes}
use nvda_remote_go.Hub.Membership.{
  client_role, set_authorization, enter_role, enter, add_usable, add, announce, welcome,
}
use nvda_remote_go.Hub.Silent.{
  SameButSent, SameButSent-trans, announce-SameButSent, welcome-SameButSent, greet-SameButSent,
}
use nvda_remote_go.Hub.Invariant.{IsTidy, is_in_masters, is_in_slaves}

-- The hub after `Add`, but for what has been sent.
pub joined : ℕ → ℕ → Bytes → Hub → Hub
joined r id password h = enter r id (enter_role r id (set_authorization r id password h))

module _ (r id : ℕ) (password : Bytes) (h : Hub) where
  pub client-joined :
      (j : ℕ)
      → (joined r id password h).client j ≡ (
          if id == j
          then record (h.client id) {
            authorized = authorizes password (h.channel r);
            channel = some r;
          }
          else h.client j)
  unfolding joined enter enter_role set_authorization set_channel set_authorized
  client-joined j = ground arith

  role-set_authorization : client_role id (set_authorization r id password h) ≡ client_role id h
  unfolding set_authorization set_authorized
  role-set_authorization = ground arith

  pub channel-joined :
      (q : ℕ)
      → (joined r id password h).channel q ≡ (
          if r == q
          then record (add_to_role (client_role id h) id (h.channel r)) {
            all = id ∷ (add_to_role (client_role id h) id (h.channel r)).all;
          }
          else h.channel q)
  unfolding joined enter enter_role set_authorization
  channel-joined q = ground (arith, role-set_authorization)

  pub all-add_to_role :
      (who : Role) (ch : Channel)
      → ((add_to_role who id ch).all ≡ ch.all)
        × ((add_to_role who id ch).name ≡ ch.name)
        × ((add_to_role who id ch).usable ≡ ch.usable)
  unfolding add_to_role
  all-add_to_role master ch = (refl, refl, refl)
  all-add_to_role slave ch = (refl, refl, refl)
  all-add_to_role other ch = (refl, refl, refl)

  absent_after_role :
      contains id (h.channel r).all ≡ false
      → contains id ((enter_role r id (set_authorization r id password h)).channel r).all ≡ false
  unfolding enter_role set_authorization
  absent_after_role absent =
      let h' = set_authorization r id password h in
      ground (arith, all-add_to_role (client_role id h') (h.channel r), absent)

  -- `Add` for a client that the channel does not hold, on a channel that has not been quit.
  pub add-joined :
      (json : Json)
      → (h.channel r).usable ≡ true
      → contains id (h.channel r).all ≡ false
      → SameButSent (joined r id password h) (add json r id password h)
  unfolding add add_usable joined
  add-joined json usable absent =
      let h' = joined r id password h in
      rw (usable, absent_after_role absent)
        (SameButSent-trans (announce-SameButSent json r id h') (
          SameButSent-trans (welcome-SameButSent json r id (announce json r id h'))
            (greet-SameButSent json r id password (welcome json r id (announce json r id h')))))

module _ (r id : ℕ) (password : Bytes) (h : Hub) (tidy : (q : ℕ) → IsTidy h q)
    (free : (h.client id).channel ≡ none) where
  absent : (q : ℕ) → contains id (h.channel q).all ≡ false
  absent q = (tidy q).members id ∙ ground arith

  contains-add_to_role :
      (who : Role) (ch : Channel) (j : ℕ)
      → (contains j (add_to_role who id ch).masters
          ≡ (is_in_masters who && id == j || contains j ch.masters))
        × (contains j (add_to_role who id ch).slaves
            ≡ (is_in_slaves who && id == j || contains j ch.slaves))
  unfolding add_to_role
  contains-add_to_role master ch j = ground (arith, contains-insert id j ch.masters)
  contains-add_to_role slave ch j = ground (arith, contains-insert id j ch.slaves)
  contains-add_to_role other ch j = ground arith

  add_to_role-Unique :
      (who : Role) (ch : Channel)
      → Unique ch.masters
      → Unique ch.slaves
      → Unique (add_to_role who id ch).masters × Unique (add_to_role who id ch).slaves
  unfolding add_to_role
  add_to_role-Unique master ch m s = (insert-Unique id ch.masters m, s)
  add_to_role-Unique slave ch m s = (m, insert-Unique id ch.slaves s)
  add_to_role-Unique other ch m s = (m, s)

  -- Every channel is still tidy.
  pub joined-IsTidy : (q : ℕ) → IsTidy (joined r id password h) q
  joined-IsTidy q =
      let who = client_role id h in
      let ch = h.channel r in
      let t = tidy q in
      record {
        all_once = ground (
          arith,
          channel-joined r id password h q,
          all-add_to_role r id password h who ch,
          absent r,
          t.all_once,
        );
        masters_once = ground (
          arith,
          channel-joined r id password h q,
          add_to_role-Unique who ch (tidy r).masters_once (tidy r).slaves_once,
          t.masters_once,
        );
        slaves_once = ground (
          arith,
          channel-joined r id password h q,
          add_to_role-Unique who ch (tidy r).masters_once (tidy r).slaves_once,
          t.slaves_once,
        );
        members = λ j. ground (
          arith,
          channel-joined r id password h q,
          client-joined r id password h j,
          all-add_to_role r id password h who ch,
          absent q,
          t.members j,
        );
        masters = λ j. ground (
          arith,
          channel-joined r id password h q,
          client-joined r id password h j,
          contains-add_to_role who ch j,
          absent q,
          t.members j,
          t.masters j,
        );
        slaves = λ j. ground (
          arith,
          channel-joined r id password h q,
          client-joined r id password h j,
          contains-add_to_role who ch j,
          absent q,
          t.members j,
          t.slaves j,
        );
      }

pub record SameTables (h i : Hub) : Type 0 where
  pub channels : i.channels ≡ h.channels
  pub registered : i.registered ≡ h.registered
  pub last_id : i.last_id ≡ h.last_id
  pub next_channel : i.next_channel ≡ h.next_channel
  pub panicked : i.panicked ≡ h.panicked

pub joined-SameTables :
    (r id : ℕ) (password : Bytes) (h : Hub) → SameTables h (joined r id password h)
unfolding joined enter enter_role set_authorization
joined-SameTables r id password h = ground arith
