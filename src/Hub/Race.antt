-- ===== src/Hub/Race.antt =====
-- The window that `join` leaves open: the lock of the tables is free between `FindChannel` and
-- `Add`, and the channel that was found may have been quit in between.
use nvda_remote_go.Prelude.{
  ℕ, ap, delete, ◌≡◌, refl, ◌∙◌, Bytes, true, false, Option, none, some, [], ◌∷◌, arith,
}
use nvda_remote_go.Hub.State.{Hub, Json, Channel}
use nvda_remote_go.Hub.Registry.{remove_channel, remove_found}
use nvda_remote_go.Hub.Channel.{quit, end_if_empty}
use nvda_remote_go.Hub.Membership.{client_role, add, leave, remove, announce_left}
use nvda_remote_go.Hub.Leaving.{channel-leave, all-remove_from_role}
use nvda_remote_go.Hub.Silent.{announce_left-SameButSent}

channel-remove_found :
    (name : Bytes) (o : Option ℕ) (h : Hub) → (remove_found name o h).channel ≡ h.channel
channel-remove_found name none h = refl
channel-remove_found name (some r) h = refl

usable-quit : (r : ℕ) (h : Hub) → ((quit r h).channel r).usable ≡ false
unfolding quit remove_channel
usable-quit r h = rw (channel-remove_found (h.channel r).name _ _) (ground arith)

module _ (json : Json) where
  add-unusable :
      (r k : ℕ) (password : Bytes) (h : Hub)
      → (h.channel r).usable ≡ false
      → (add json r k password h).panicked ≡ true
  unfolding add
  add-unusable r k password h e = ground (arith, e)

  -- Where a client `k` has found a channel, and the channel's only member leaves before `k` adds
  -- itself, the addition writes to a nil map.
  pub add-remove :
      (r id k : ℕ) (password : Bytes) (h : Hub)
      → (h.channel r).all ≡ id ∷ []
      → (add json r k password (remove json r id h)).panicked ≡ true
  unfolding remove end_if_empty delete
  add-remove r id k password h only =
      let told = announce_left json r id (leave r id h) in
      let gone : (told.channel r).all ≡ [] =
        ap (λ (f : ℕ → Channel). (f r).all)
          (announce_left-SameButSent json r id (leave r id h)).channel_store
        ∙ ap (λ (c : Channel). c.all) (channel-leave r id h r)
        ∙ ground (arith, only, all-remove_from_role r id h (client_role id h) (h.channel r)) in
      add-unusable r k password (remove json r id h) (rw gone (usable-quit r told))
