-- ===== src/Hub/Consistency.antt =====
-- The tables after a client has joined a channel: server/clientChannel.go `Add` and server/server.go
-- `AddChannel`.
use nvda_remote_go.Prelude.{
  ℕ, ◌+◌, ◌≡◌, ap, ◌∙◌, Bytes, Bool, true, false, none, some, arith, contains, lookup, put,
  lookup-put, update, bytes_eq_iff,
}
use nvda_remote_go.Hub.State.{Hub, Json}
use nvda_remote_go.Hub.Membership.{client_role, add, add_channel, new_channel}
use nvda_remote_go.Hub.Delivery.{nil_contains}
use nvda_remote_go.Hub.Silent.{SameButSent}
use nvda_remote_go.Hub.Invariant.{IsTidy, IsConsistent, SameButSent-IsConsistent, is_ref}
use nvda_remote_go.Hub.Joining.{
  joined, client-joined, channel-joined, all-add_to_role, add-joined, joined-IsTidy,
  joined-SameTables,
}

module _ (id : ℕ) (name password : Bytes) (h : Hub) (v : IsConsistent h)
    (present : contains id h.registered ≡ true) (free : (h.client id).channel ≡ none) where
  outside : (q : ℕ) → contains id (h.channel q).all ≡ false
  outside q = (v.tidy q).members id ∙ ground arith

  module _ (r : ℕ) (found : lookup name h.channels ≡ some r) where
    joined-IsConsistent : IsConsistent (joined r id password h)
    joined-IsConsistent =
        let t = joined-SameTables r id password h in
        let who = client_role id h in
        let own = v.named name r found in
        let same = all-add_to_role r id password h who (h.channel r) in
        record {
          tidy = joined-IsTidy r id password h v.tidy free;
          named = λ n q e.
              ground (arith, channel-joined r id password h q, same, own, t.channels, v.named n q);
          listed = λ q e. ground (
            arith,
            channel-joined r id password h q,
            same,
            own,
            t.channels,
            t.next_channel,
            v.listed q,
            v.listed r,
          );
          known = λ j e.
              ground (arith, client-joined r id password h j, t.registered, present, v.known j);
          numbered = λ j e. ground (arith, t.registered, t.last_id, v.numbered j);
          registered_once = rw t.registered v.registered_once;
          alive = t.panicked ∙ v.alive;
        }

    -- Joining a channel of the table.
    pub add-IsConsistent : (json : Json) → IsConsistent (add json r id password h)
    add-IsConsistent json =
        SameButSent-IsConsistent
          (add-joined r id password h json (v.named name r found).1 (outside r)) joined-IsConsistent

  module _ (locked : Bool) (unlisted : lookup name h.channels ≡ none) where
    abbrev next : ℕ
    next = h.next_channel

    abbrev allocated : Hub
    allocated = record h {
      channel = update h.channel next (new_channel name password locked);
      next_channel = next + 1;
    }

    -- The number of the next channel is that of no client's channel.
    unused : (j : ℕ) → is_ref next (h.client j).channel ≡ false
    unused j =
        ground (arith, v.listed next, (v.tidy next).members j, nil_contains j (h.channel next).all)

    allocated-IsTidy : (q : ℕ) → IsTidy allocated q
    allocated-IsTidy q =
        let t = v.tidy q in
        record {
          all_once = ground (arith, t.all_once);
          masters_once = ground (arith, t.masters_once);
          slaves_once = ground (arith, t.slaves_once);
          members = λ j. ground (arith, unused j, t.members j);
          masters = λ j. ground (arith, unused j, t.masters j);
          slaves = λ j. ground (arith, unused j, t.slaves j);
        }

    abbrev listed_anew : Hub → Hub
    listed_anew i = record i { channels = put name next i.channels }

    created-IsTidy : (q : ℕ) → IsTidy (listed_anew (joined next id password allocated)) q
    created-IsTidy q =
        let t = joined-IsTidy next id password allocated allocated-IsTidy free q in
        record {
          all_once = t.all_once;
          masters_once = t.masters_once;
          slaves_once = t.slaves_once;
          members = t.members;
          masters = t.masters;
          slaves = t.slaves;
        }

    created-IsConsistent : IsConsistent (listed_anew (joined next id password allocated))
    created-IsConsistent =
        let i = joined next id password allocated in
        let t = joined-SameTables next id password allocated in
        let who = client_role id allocated in
        let same =
          all-add_to_role next id password allocated who (new_channel name password locked) in
        record {
          tidy = created-IsTidy;
          named = λ n q e. ground (
            arith,
            channel-joined next id password allocated q,
            same,
            lookup-put name n next h.channels,
            bytes_eq_iff name n,
            t.channels,
            v.named n q,
            v.listed q,
          );
          listed = λ q e. ground (
            arith,
            channel-joined next id password allocated q,
            same,
            lookup-put name ((i.channel q).name) next h.channels,
            bytes_eq_iff name ((i.channel q).name),
            t.channels,
            t.next_channel,
            v.listed q,
          );
          known = λ j e.
              ground (
                arith,
                client-joined next id password allocated j,
                t.registered,
                present,
                v.known j,
              );
          numbered = λ j e. ground (arith, t.registered, t.last_id, v.numbered j);
          registered_once = rw t.registered v.registered_once;
          alive = t.panicked ∙ v.alive;
        }

    listed_anew-SameButSent :
        (i k : Hub) → SameButSent i k → SameButSent (listed_anew i) (listed_anew k)
    listed_anew-SameButSent i k s = record {
      channel_store = s.channel_store;
      channel_table = ap (put name next) s.channel_table;
      registered_set = s.registered_set;
      last = s.last;
      next = s.next;
      options = s.options;
      blocks = s.blocks;
      panic = s.panic;
      clients = s.clients;
    }

    -- Creating a channel under a name that the table does not have.
    pub add_channel-IsConsistent :
        (json : Json) → IsConsistent (add_channel json name password locked id h)
    unfolding add_channel
    add_channel-IsConsistent json =
        SameButSent-IsConsistent
          (listed_anew-SameButSent (joined next id password allocated)
            (add json next id password allocated)
            (add-joined next id password allocated json (ground arith) (ground arith)))
          created-IsConsistent
