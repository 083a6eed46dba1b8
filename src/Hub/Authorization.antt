-- ===== src/Hub/Authorization.antt =====
-- What a client may do in the channel that it joins, and that it keeps to it.
use nvda_remote_go.Prelude.{
  ℕ, ◌≡◌, ap, ◌∙◌, Bytes, true, false, none, some, not, ◌&&◌, ◌||◌, arith, ◌==◌, if◌then◌else◌,
  is_empty, bytes_eq, contains, lookup,
}
use nvda_remote_go.Hub.State.{Hub, Client, Json, Message, edit_client}
use nvda_remote_go.Hub.Client.{set_connection_type}
use nvda_remote_go.Hub.Registry.{find_channel}
use nvda_remote_go.Hub.Channel.{authorizes}
use nvda_remote_go.Hub.Membership.{add}
use nvda_remote_go.Hub.Commands.{join, join_with, join_channel, get_channel_params, is_blocked}
use nvda_remote_go.Hub.Silent.{unsent}
use nvda_remote_go.Hub.Invariant.{IsConsistent, is_ref}
use nvda_remote_go.Hub.Joining.{client-joined, add-joined}
use nvda_remote_go.Hub.Received.{retype-IsConsistent}

module _ (json : Json) (r id : ℕ) (password : Bytes) (h : Hub) where
  -- What `Add` makes of the clients.
  client-add :
      (j : ℕ)
      → IsConsistent h
      → (h.channel r).usable ≡ true
      → (h.client id).channel ≡ none
      → unsent ((add json r id password h).client j)
        ≡ unsent (
            if id == j
            then record (h.client id) {
              authorized = authorizes password (h.channel r);
              channel = some r;
            }
            else h.client j)
  client-add j v usable free =
      let absent : contains id (h.channel r).all ≡ false =
        (v.tidy r).members id ∙ ap (is_ref r) free in
      (add-joined r id password h json usable absent).clients j
      ∙ ap unsent (client-joined r id password h j)

module _ (json : Json) (id : ℕ) (m : Message) (r : ℕ) (h : Hub) where
  -- A client that joins a channel of the table is then in it, and is authorized exactly if the
  -- channel is not locked, or has a password and the client has given it; no other client enters or
  -- leaves a channel, or becomes or ceases to be authorized.
  pub join-authorized :
      IsConsistent h
      → (h.client id).channel ≡ none
      → is_empty (get_channel_params m.channel).name ≡ false
      → is_blocked (h.client id).ip (get_channel_params m.channel).name h ≡ false
      → lookup (get_channel_params m.channel).name h.channels ≡ some r
      → (j : ℕ)
      → let h' = join json id m h in
        ((h'.client j).channel ≡ (if id == j then some r else (h.client j).channel))
        × ((h'.client j).authorized ≡ (
            if id == j
            then not (h.channel r).locked
              || bytes_eq (get_channel_params m.channel).password (h.channel r).password
                && not (is_empty (h.channel r).password)
            else (h.client j).authorized))
        × ((h'.client j).connection_type
            ≡ (if id == j then m.connection_type else (h.client j).connection_type))
  unfolding join join_with join_channel find_channel set_connection_type authorizes
  join-authorized v free named open_to found j =
      let p = get_channel_params m.channel in
      let h1 = edit_client id (set_connection_type m.connection_type) h in
      let v1 = retype-IsConsistent id m.connection_type h v free in
      let usable = (v.named p.name r found).1 in
      let all = client-add json r id p.password h1 j v1 usable (ground (arith, free)) in
      rw (free, named, open_to, found)
        (
          ground (arith, ap (λ (c : Client). c.channel) all),
          ground (arith, ap (λ (c : Client). c.authorized) all),
          ground (arith, ap (λ (c : Client). c.connection_type) all),
        )
