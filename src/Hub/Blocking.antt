-- ===== src/Hub/Blocking.antt =====
-- Who is blocked after the operations of server/blocklist.go. The key of a block joins the address
-- and the channel by a NUL byte, so that it stands for one pair where no address has such a byte.
use nvda_remote_go.Prelude.{
  ℕ, ◌≡◌, refl, Bytes, Bool, true, false, none, some, List, [], ◌∷◌, not, ◌&&◌, ◌||◌, arith,
  if◌then◌else◌, is_empty, has_no_nul, first_part, same_empty, bytes_eq, bytes_eq_iff,
  bytes_eq_refl, ◌∙◌, put, lookup, lookup-put, lookup-erase, contains,
}
use nvda_remote_go.Hub.State.{Hub, BlockedClient, Json, Message, edit_client}
use nvda_remote_go.Hub.Client.{cancel}
use nvda_remote_go.Hub.Commands.{
  block_key, is_blocked, is_some, join, join_with, get_channel_params,
}
use nvda_remote_go.Hub.Blocklist.{
  find_in, find_registered, snapshot_clients, block_client_by_id, unblock, replace_block_list,
  table_of, channel_name, blocked_entry, block_entry,
}

pub block_key-block_key :
    (a b c d : Bytes)
    → has_no_nul a ≡ true
    → has_no_nul b ≡ true
    → bytes_eq (block_key a c) (block_key b d) ≡ (bytes_eq a b && bytes_eq c d)
unfolding block_key
block_key-block_key a b c d p q = first_part a b c d p q

find_in_lem : (id : ℕ) (ks : List ℕ) → find_in id ks ≡ (if contains id ks then some id else none)
find_in_lem id [] = refl
find_in_lem id (k ∷ ks) = ground (arith, find_in_lem id ks)

is_blocked-block_entry :
    (e : BlockedClient) (id : ℕ) (ip name : Bytes) (h : Hub)
    → has_no_nul e.ip ≡ true
    → has_no_nul ip ≡ true
    → is_empty e.ip ≡ false
    → is_blocked ip name (block_entry e id h).0 ≡ (
        not (is_empty e.channel) && bytes_eq e.ip ip && bytes_eq e.channel name
        || is_blocked ip name h)
unfolding is_blocked
is_blocked-block_entry e id ip name h p q r = ground (
  arith,
  lookup-put (block_key e.ip e.channel) (block_key ip name) e h.blocked,
  block_key-block_key e.ip ip e.channel name p q,
  same_empty e.ip ip,
  same_empty e.channel name,
)

-- Blocking a client that is connected, whose address is known, blocks that address on the client's
-- channel, if it is in one that has a name, and no other pair of address and channel, where the
-- addresses have no NUL byte.
pub is_blocked-block_client_by_id :
    (now id : ℕ) (ip name : Bytes) (h : Hub)
    → contains id h.registered ≡ true
    → has_no_nul (h.client id).ip ≡ true
    → has_no_nul ip ≡ true
    → is_empty (h.client id).ip ≡ false
    → let channel = channel_name (h.client id).channel h in
      is_blocked ip name (block_client_by_id now id h).0 ≡ (
        not (is_empty channel) && bytes_eq (h.client id).ip ip && bytes_eq channel name
        || is_blocked ip name h)
unfolding block_client_by_id find_registered snapshot_clients
is_blocked-block_client_by_id now id ip name h c p q r =
    rw (find_in_lem id h.registered, c)
      (is_blocked-block_entry (blocked_entry now id h) id ip name h p q r)

-- Lifting a block lifts it for that address on that channel, and leaves all others, where the
-- addresses have no NUL byte.
pub is_blocked-unblock :
    (ip channel j name : Bytes) (h : Hub)
    → has_no_nul ip ≡ true
    → has_no_nul j ≡ true
    → is_blocked j name (unblock ip channel h).0
      ≡ (not (bytes_eq ip j && bytes_eq channel name) && is_blocked j name h)
unfolding is_blocked unblock
is_blocked-unblock ip channel j name h p q = ground (
  arith,
  lookup-erase (block_key ip channel) (block_key j name) h.blocked,
  block_key-block_key ip j channel name p q,
  bytes_eq_iff (block_key ip channel) (block_key j name),
)

abbrev pub lists : Bytes → Bytes → List BlockedClient → Bool
lists ip channel [] = false
lists ip channel (e ∷ es) = bytes_eq e.ip ip && bytes_eq e.channel channel || lists ip channel es

abbrev pub all_without_nul : List BlockedClient → Bool
all_without_nul [] = true
all_without_nul (e ∷ es) = has_no_nul e.ip && all_without_nul es

lookup-table_of :
    (ip channel : Bytes) (es : List BlockedClient) (table : List (Bytes × BlockedClient))
    → has_no_nul ip ≡ true
    → all_without_nul es ≡ true
    → is_some (lookup (block_key ip channel) (table_of es table))
      ≡ (lists ip channel es || is_some (lookup (block_key ip channel) table))
unfolding table_of
lookup-table_of ip channel [] table p q = refl
lookup-table_of ip channel (e ∷ es) table p q = ground (
  arith,
  lookup-table_of ip channel es (put (block_key e.ip e.channel) e table),
  lookup-put (block_key e.ip e.channel) (block_key ip channel) e table,
  block_key-block_key e.ip ip e.channel channel,
)

-- After the list is replaced, as when the stored one is loaded, exactly the pairs of the new list
-- are blocked, empty addresses and names aside, where the addresses have no NUL byte.
pub is_blocked-replace_block_list :
    (ip channel : Bytes) (es : List BlockedClient) (h : Hub)
    → has_no_nul ip ≡ true
    → all_without_nul es ≡ true
    → is_blocked ip channel (replace_block_list es h)
      ≡ (not (is_empty ip) && not (is_empty channel) && lists ip channel es)
unfolding is_blocked replace_block_list lookup
is_blocked-replace_block_list ip channel es h p q = ground (arith, lookup-table_of ip channel es [])

-- A client whose address is blocked on a channel and that asks to join it is cut off, and that is
-- all that happens: it is told nothing and enters no channel, whatever flags it writes around the
-- channel's name.
pub join-blocked :
    (json : Json) (id : ℕ) (m : Message) (h : Hub)
    → (h.client id).channel ≡ none
    → is_blocked (h.client id).ip (get_channel_params m.channel).name h ≡ true
    → join json id m h ≡ edit_client id cancel h
unfolding join join_with is_blocked
join-blocked json id m h free blocked = rw free (ground (arith, blocked))

block_client_by_id-client :
    (now id k : ℕ) (h : Hub)
    → ((block_client_by_id now id h).0.client k).ip ≡ (h.client k).ip
      × (((block_client_by_id now id h).0.client k).channel ≡ (h.client k).channel)
unfolding block_client_by_id find_registered snapshot_clients cancel
block_client_by_id-client now id k h = ground (arith, find_in_lem id h.registered)

-- Once the administrator has blocked a connected client that is in a channel, a client from the
-- same address that is in no channel and asks to join that channel is cut off, and that is all that
-- happens; where the address is known and has no NUL byte.
pub join-block_client_by_id :
    (json : Json) (now id k : ℕ) (m : Message) (h : Hub)
    → contains id h.registered ≡ true
    → has_no_nul (h.client id).ip ≡ true
    → is_empty (h.client id).ip ≡ false
    → is_empty (channel_name (h.client id).channel h) ≡ false
    → (h.client k).ip ≡ (h.client id).ip
    → (h.client k).channel ≡ none
    → (get_channel_params m.channel).name ≡ channel_name (h.client id).channel h
    → join json k m (block_client_by_id now id h).0
      ≡ edit_client k cancel (block_client_by_id now id h).0
join-block_client_by_id json now id k m h c p q n same free named =
    let kept = block_client_by_id-client now id k h in
    join-blocked json k m (block_client_by_id now id h).0 (kept.1 ∙ free) (
      rw (kept.0, same, named)
        (is_blocked-block_client_by_id now id (h.client id).ip
            (channel_name (h.client id).channel h) h c p p q
          ∙ rw
              (
                n,
                bytes_eq_refl (h.client id).ip,
                bytes_eq_refl (channel_name (h.client id).channel h),
              )
              refl))
