-- ===== src/Hub/Leaving.antt =====
-- A client leaves its channel: what `Remove` does to the tables.
use nvda_remote_go.Prelude.{
  ℕ, ◌≡◌, refl, none, some, not, ◌&&◌, arith, ◌==◌, if◌then◌else◌, contains, delete,
  contains-delete, delete-Unique, Unique,
}
use nvda_remote_go.Hub.State.{Hub, Channel, Role, master, slave, other}
use nvda_remote_go.Hub.Client.{clear_channel, set_channel}
use nvda_remote_go.Hub.Channel.{remove_from_role}
use nvda_remote_go.Hub.Membership.{client_role, leave}
use nvda_remote_go.Hub.Invariant.{IsTidy, is_in_masters, is_in_slaves}
use nvda_remote_go.Hub.Joining.{SameTables}

module _ (r id : ℕ) (h : Hub) where
  pub client-leave :
      (j : ℕ)
      → (leave r id h).client j
        ≡ (if id == j then record (h.client id) { channel = none } else h.client j)
  unfolding leave clear_channel set_channel
  client-leave j = ground arith

  pub channel-leave :
      (q : ℕ)
      → (leave r id h).channel q ≡ (
          if r == q
          then record (remove_from_role (client_role id h) id (h.channel r)) {
            all = delete id (remove_from_role (client_role id h) id (h.channel r)).all;
          }
          else h.channel q)
  unfolding leave
  channel-leave q = ground arith

  pub leave-SameTables : SameTables h (leave r id h)
  unfolding leave
  leave-SameTables = ground arith

  pub all-remove_from_role :
      (who : Role) (ch : Channel)
      → ((remove_from_role who id ch).all ≡ ch.all)
        × ((remove_from_role who id ch).name ≡ ch.name)
        × ((remove_from_role who id ch).usable ≡ ch.usable)
  unfolding remove_from_role
  all-remove_from_role master ch = (refl, refl, refl)
  all-remove_from_role slave ch = (refl, refl, refl)
  all-remove_from_role other ch = (refl, refl, refl)

  contains-remove_from_role :
      (who : Role) (ch : Channel) (j : ℕ)
      → (contains j (remove_from_role who id ch).masters
          ≡ (not (is_in_masters who && id == j) && contains j ch.masters))
        × (contains j (remove_from_role who id ch).slaves
            ≡ (not (is_in_slaves who && id == j) && contains j ch.slaves))
  unfolding remove_from_role
  contains-remove_from_role master ch j = ground (arith, contains-delete id j ch.masters)
  contains-remove_from_role slave ch j = ground (arith, contains-delete id j ch.slaves)
  contains-remove_from_role other ch j = ground arith

  remove_from_role-Unique :
      (who : Role) (ch : Channel)
      → Unique ch.masters
      → Unique ch.slaves
      → Unique (remove_from_role who id ch).masters × Unique (remove_from_role who id ch).slaves
  unfolding remove_from_role
  remove_from_role-Unique master ch m s = (delete-Unique id ch.masters m, s)
  remove_from_role-Unique slave ch m s = (m, delete-Unique id ch.slaves s)
  remove_from_role-Unique other ch m s = (m, s)

  module _ (tidy : (q : ℕ) → IsTidy h q) (member : (h.client id).channel ≡ some r) where
    pub leave-IsTidy : (q : ℕ) → IsTidy (leave r id h) q
    leave-IsTidy q =
        let who = client_role id h in
        let ch = h.channel r in
        let t = tidy q in
        let same = all-remove_from_role who ch in
        let at = channel-leave q in
        let once = remove_from_role-Unique who ch (tidy r).masters_once (tidy r).slaves_once in
        record {
          all_once = ground (arith, at, same, delete-Unique id ch.all, t.all_once);
          masters_once = ground (arith, at, once, t.masters_once);
          slaves_once = ground (arith, at, once, t.slaves_once);
          members = λ j.
              ground (arith, at, same, client-leave j, contains-delete id j ch.all, t.members j);
          masters = λ j.
              ground (arith, at, client-leave j, contains-remove_from_role who ch j, t.masters j);
          slaves = λ j.
              ground (arith, at, client-leave j, contains-remove_from_role who ch j, t.slaves j);
        }
