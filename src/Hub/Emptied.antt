-- ===== src/Hub/Emptied.antt =====
-- The channel that a client has left, which is removed when nobody is left in it:
-- server/clientChannel.go `Remove`, `EndIfEmpty` and `Quit`.
use nvda_remote_go.Prelude.{
  ℕ, ◌<◌, ◌≡◌, refl, ◌∙◌, Bytes, true, false, none, some, List, [], ◌∷◌, not, ◌&&◌, arith, ◌==◌,
  contains, Unique, lookup, erase, lookup-erase, update, bytes_eq_iff, inl, inr, Bool-cases,
}
use nvda_remote_go.Hub.State.{Hub}
use nvda_remote_go.Hub.Registry.{remove_channel, find_channel}
use nvda_remote_go.Hub.Channel.{quit, end_if_empty}
use nvda_remote_go.Hub.Membership.{client_role, leave, is_nil}
use nvda_remote_go.Hub.Delivery.{nil_contains}
use nvda_remote_go.Hub.Silent.{SameButSent}
use nvda_remote_go.Hub.Invariant.{IsTidy, IsConsistent, SameButSent-IsTidy, SameButSent-channel}
use nvda_remote_go.Hub.Leaving.{
  leave-IsTidy, leave-SameTables, channel-leave, client-leave, all-remove_from_role,
}

-- All of the invariant, but that the channel `r`, which the table has, may be empty.
pub record IsNearly (r : ℕ) (h : Hub) : Type 0 where
  tidy : (q : ℕ) → IsTidy h q
  named :
      (name : Bytes) (q : ℕ)
      → lookup name h.channels ≡ some q
      → ((h.channel q).name ≡ name)
        × ((h.channel q).usable ≡ true)
        × ((is_nil (h.channel q).all && not (r == q)) ≡ false)
  listed :
      (q : ℕ)
      → is_nil (h.channel q).all ≡ false
      → (lookup (h.channel q).name h.channels ≡ some q) × (q < h.next_channel)
  own : lookup (h.channel r).name h.channels ≡ some r
  known : (j : ℕ) → contains j h.registered ≡ false → (h.client j).channel ≡ none
  numbered : (j : ℕ) → h.last_id < j → contains j h.registered ≡ false
  registered_once : Unique h.registered
  alive : h.panicked ≡ false

pub SameButSent-IsNearly : (r : ℕ) {h i : Hub} → SameButSent h i → IsNearly r h → IsNearly r i
SameButSent-IsNearly r s v = record {
  tidy = λ q. SameButSent-IsTidy s q (v.tidy q);
  named = λ name q. rw (s.channel_table, s.channel_store) (v.named name q);
  listed = λ q. rw (s.channel_store, s.channel_table, s.next) (v.listed q);
  own = rw (s.channel_store, s.channel_table) v.own;
  known = λ j. rw (s.registered_set, SameButSent-channel s j) (v.known j);
  numbered = λ j. rw (s.last, s.registered_set) (v.numbered j);
  registered_once = rw s.registered_set v.registered_once;
  alive = s.panic ∙ v.alive;
}

pub leave-IsNearly :
    (r id : ℕ) (h : Hub)
    → IsConsistent h
    → (h.client id).channel ≡ some r
    → IsNearly r (leave r id h)
leave-IsNearly r id h v member =
    let i = leave r id h in
    let t = leave-SameTables r id h in
    let who = client_role id h in
    let same = all-remove_from_role r id h who (h.channel r) in
    let held : is_nil (h.channel r).all ≡ false =
      ground (arith, nil_contains id (h.channel r).all, (v.tidy r).members id, member) in
    record {
      tidy = leave-IsTidy r id h v.tidy member;
      named = λ name q e. ground (arith, channel-leave r id h q, same, t.channels, v.named name q);
      listed = λ q e. ground (
        arith,
        channel-leave r id h q,
        same,
        t.channels,
        t.next_channel,
        v.listed q,
        v.listed r,
        held,
      );
      own = ground (arith, channel-leave r id h r, same, t.channels, v.listed r, held);
      known = λ j e. ground (arith, client-leave r id h j, t.registered, v.known j);
      numbered = λ j e. ground (arith, t.registered, t.last_id, v.numbered j);
      registered_once = rw t.registered v.registered_once;
      alive = t.panicked ∙ v.alive;
    }

nil_eq : (xs : List ℕ) → is_nil xs ≡ true → xs ≡ []
nil_eq [] h = refl
nil_eq (x ∷ xs) h = cc

abbrev dropped : ℕ → Hub → Hub
dropped r h = record h {
  channel =
      update h.channel r
        (record (h.channel r) { usable = false; all = []; masters = []; slaves = [] });
  channels = erase (h.channel r).name h.channels;
}

quit-dropped :
    (r : ℕ) (h : Hub)
    → is_nil (h.channel r).all ≡ true
    → lookup (h.channel r).name h.channels ≡ some r
    → quit r h ≡ dropped r h
unfolding quit remove_channel find_channel
quit-dropped r h empty own = rw (nil_eq (h.channel r).all empty, own)

dropped-IsConsistent :
    (r : ℕ) (h : Hub) → IsNearly r h → is_nil (h.channel r).all ≡ true → IsConsistent (dropped r h)
dropped-IsConsistent r h v empty =
    let none_in = λ (j : ℕ). nil_contains j (h.channel r).all empty in
    record {
      tidy = λ q.
          let t = v.tidy q in
          record {
            all_once = ground (arith, t.all_once);
            masters_once = ground (arith, t.masters_once);
            slaves_once = ground (arith, t.slaves_once);
            members = λ j. ground (arith, none_in j, (v.tidy r).members j, t.members j);
            masters = λ j. ground (arith, none_in j, (v.tidy r).members j, t.masters j);
            slaves = λ j. ground (arith, none_in j, (v.tidy r).members j, t.slaves j);
          };
      named = λ name q e. ground (
        arith,
        lookup-erase (h.channel r).name name h.channels,
        bytes_eq_iff (h.channel r).name name,
        v.named name q,
        v.own,
      );
      listed = λ q e. ground (
        arith,
        lookup-erase (h.channel r).name (h.channel q).name h.channels,
        bytes_eq_iff (h.channel r).name (h.channel q).name,
        v.listed q,
        v.own,
      );
      known = v.known;
      numbered = v.numbered;
      registered_once = v.registered_once;
      alive = v.alive;
    }

kept-IsConsistent :
    (r : ℕ) (h : Hub) → IsNearly r h → is_nil (h.channel r).all ≡ false → IsConsistent h
kept-IsConsistent r h v held = record {
  tidy = v.tidy;
  named = λ name q e. ground (arith, v.named name q);
  listed = v.listed;
  known = v.known;
  numbered = v.numbered;
  registered_once = v.registered_once;
  alive = v.alive;
}

-- What `EndIfEmpty` does to a hub that lacks only this.
pub record Ends (k i : Hub) : Type 0 where
  pub consistent : IsConsistent i
  pub same_clients : i.client ≡ k.client
  pub same_registered : i.registered ≡ k.registered
  same_last : i.last_id ≡ k.last_id

pub end_if_empty-Ends : (r : ℕ) (h : Hub) → IsNearly r h → Ends h (end_if_empty r h)
unfolding end_if_empty
end_if_empty-Ends r h v = elim (Bool-cases (is_nil (h.channel r).all)) [
  | inl empty ↦
      rw (empty, quit-dropped r h empty v.own)
        (record {
          consistent = dropped-IsConsistent r h v empty;
          same_clients = refl;
          same_registered = refl;
          same_last = refl;
        })
  | inr held ↦ rw held (record {
    consistent = kept-IsConsistent r h v held;
    same_clients = refl;
    same_registered = refl;
    same_last = refl;
  })
]
