-- ===== src/Hub/Removal.antt =====
-- The tables after a client has left its channel, which is removed with its name when it is empty:
-- server/clientChannel.go `Remove`, `EndIfEmpty` and `Quit`, server/server.go `RemoveClient`.
use nvda_remote_go.Prelude.{
  ℕ, ◌≡◌, refl, ap, ◌∙◌, Option, none, some, arith, ◌==◌, if◌then◌else◌, contains-delete,
  delete-Unique, ==→eq, inl, inr, Bool-cases,
}
use nvda_remote_go.Hub.State.{Hub, Client, Json}
use nvda_remote_go.Hub.Registry.{find_client}
use nvda_remote_go.Hub.Membership.{
  leave, remove, remove_client, announce_left, unregister, leave_channel,
}
use nvda_remote_go.Hub.Silent.{announce_left-SameButSent}
use nvda_remote_go.Hub.Invariant.{IsConsistent, SameButSent-channel}
use nvda_remote_go.Hub.Leaving.{leave-SameTables, client-leave}
use nvda_remote_go.Hub.Emptied.{SameButSent-IsNearly, leave-IsNearly, Ends, end_if_empty-Ends}

module _ (json : Json) (r id : ℕ) (h : Hub) (v : IsConsistent h)
    (member : (h.client id).channel ≡ some r) where
  abbrev told : Hub
  told = announce_left json r id (leave r id h)

  remove-Ends : Ends told (remove json r id h)
  unfolding remove
  remove-Ends = end_if_empty-Ends r told (
      SameButSent-IsNearly r (announce_left-SameButSent json r id (leave r id h))
        (leave-IsNearly r id h v member))

  -- A member leaves its channel.
  pub remove-IsConsistent : IsConsistent (remove json r id h)
  remove-IsConsistent = remove-Ends.consistent

  pub registered-remove : (remove json r id h).registered ≡ h.registered
  registered-remove =
      remove-Ends.same_registered
      ∙ (announce_left-SameButSent json r id (leave r id h)).registered_set
      ∙ (leave-SameTables r id h).registered

  pub channel-remove :
      (j : ℕ)
      → ((remove json r id h).client j).channel ≡ (if id == j then none else (h.client j).channel)
  channel-remove j =
      ap (λ (f : ℕ → Client). (f j).channel) remove-Ends.same_clients
      ∙ SameButSent-channel (announce_left-SameButSent json r id (leave r id h)) j
      ∙ ground (arith, client-leave r id h j)

unregister-IsConsistent :
    (id : ℕ) (h : Hub)
    → IsConsistent h
    → (h.client id).channel ≡ none
    → IsConsistent (unregister id h)
unregister-IsConsistent id h v free = record {
  tidy = λ q.
      let t = v.tidy q in
      record {
        all_once = t.all_once;
        masters_once = t.masters_once;
        slaves_once = t.slaves_once;
        members = t.members;
        masters = t.masters;
        slaves = t.slaves;
      };
  named = v.named;
  listed = v.listed;
  known = λ j e. ground (arith, v.known j, contains-delete id j h.registered, ==→eq id j, free);
  numbered = λ j e. ground (arith, v.numbered j, contains-delete id j h.registered);
  registered_once = delete-Unique id h.registered v.registered_once;
  alive = v.alive;
}

leave_channel-IsConsistent :
    (json : Json) (id : ℕ) (h : Hub) (o : Option ℕ)
    → IsConsistent h
    → (h.client id).channel ≡ o
    → IsConsistent (leave_channel json o id h)
      × (((leave_channel json o id h).client id).channel ≡ none)
leave_channel-IsConsistent json id h none v e = (v, e)
leave_channel-IsConsistent json id h (some r) v e =
    (remove-IsConsistent json r id h v e, channel-remove json r id h v e id ∙ ground arith)

-- A client that goes away, in a channel or not.
pub remove_client-IsConsistent :
    (json : Json) (id : ℕ) (h : Hub) → IsConsistent h → IsConsistent (remove_client json id h)
unfolding remove_client
remove_client-IsConsistent json id h v =
    let o = (h.client id).channel in
    let left = leave_channel-IsConsistent json id h o v refl in
    elim (Bool-cases (find_client id h)) [
      | inl present ↦
          rw present (unregister-IsConsistent id (leave_channel json o id h) left.0 left.1)
      | inr gone ↦ rw gone v
    ]
