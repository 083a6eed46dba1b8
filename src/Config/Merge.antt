-- ===== src/Config/Merge.antt =====
-- server/cfg.go: what the merge of the command line and the file comes to.
use nvda_remote_go.Prelude.{
  ℕ, Bytes, Bool, true, false, List, [], ◌∷◌, ℤ, pos, negsuc, ◌&&◌, ◌≡◌, ◌≢◌, refl, sym, ap, ◌∙◌,
  ==→eq, bytes_eq→eq, bytes_eq, Bool-cases, inl, inr,
}
use nvda_remote_go.Config.Values.{
  Values, cfg_default, default_text, default_log_level, default_addresses, default_off, is_pos,
  default_send_origin, default_turn_urls, default_turn_ttl, default_and, is_default,
}
use nvda_remote_go.Config.Flags.{cmd_get, cmd_set, pick}

pick-is_default {ℓ} :
    {A : Type ℓ} (d : A → Bool) (file flag : A) → d (pick d file flag) ≡ (d file && d flag)
pick-is_default d file flag = elim (Bool-cases (d flag)) [
  | inl e ↦ elim (Bool-cases (d file)) [ inl g ↦ rw (g, e) refl | inr g ↦ rw (g, e) g ]
  | inr e ↦ elim (Bool-cases (d file)) [ inl g ↦ rw (g, e) refl | inr g ↦ rw (g, e) e ]
]

and_both :
    (a b x y r : Bool)
    → r ≡ (x && y)
    → default_and (a && b) r ≡ (default_and a x && default_and b y)
and_both true true x y r e = e
and_both true false true y r e = refl
and_both true false false y r e = refl
and_both false true x y r e = refl
and_both false false x y r e = refl

picked_default :
    {A : Type 0} (d : A → Bool) (file flag : A) (x y r : Bool)
    → r ≡ (x && y)
    → default_and (d (pick d file flag)) r ≡ (default_and (d file) x && default_and (d flag) y)
picked_default d file flag x y r e =
    ap (λ t. default_and t r) (pick-is_default d file flag) ∙ and_both (d file) (d flag) x y r e

module _ (c f : Values) where
  -- After the merge, all values are the default ones exactly if those of the file and those of the
  -- command line all were.
  pub is_default-cmd_set : is_default (cmd_set c f) ≡ (is_default c && is_default f)
  unfolding is_default cmd_set
  is_default-cmd_set = picked_default default_text c.pid_file f.pid_file _ _ _ (
      picked_default default_text c.log_file f.log_file _ _ _ (
        picked_default default_log_level c.log_level f.log_level _ _ _ (
          picked_default default_addresses c.addresses f.addresses _ _ _ (
            picked_default default_text c.cert f.cert _ _ _ (
              picked_default default_text c.key f.key _ _ _ (
                picked_default default_text c.motd f.motd _ _ _ (
                  picked_default default_off c.motd_always_display f.motd_always_display _ _ _ (
                    picked_default default_send_origin c.send_origin f.send_origin _ _ _ (
                      picked_default default_off c.screen_share f.screen_share _ _ _ (
                        picked_default default_turn_urls c.turn_urls f.turn_urls _ _ _ (
                          picked_default default_text c.turn_secret f.turn_secret _ _ _ (
                            picked_default default_text c.turn_secret_file f.turn_secret_file _ _ _
                              (picked_default default_turn_ttl c.turn_ttl f.turn_ttl true true true
                                refl)))))))))))))

-- A default that has one form only.
picked_back {ℓ} :
    {A : Type ℓ} (d : A → Bool) (flag standard : A)
    → d standard ≡ true
    → (d flag ≡ true → flag ≡ standard)
    → pick d flag standard ≡ flag
picked_back d flag standard is only = elim (Bool-cases (d flag)) [
  | inl e ↦ rw (is, e) (sym (only e))
  | inr e ↦ rw (is, e) refl
]

empty_only : (s : Bytes) → default_text s ≡ true → s ≡ []
empty_only [] h = refl
empty_only (x ∷ s) h = cc

number_only : (n : ℕ) (z : ℤ) → is_pos n z ≡ true → z ≡ pos n
number_only n (pos m) h = ap pos (==→eq m n h)
number_only n (negsuc m) h = cc

off_only : (b : Bool) → default_off b ≡ true → b ≡ false
off_only true h = sym h
off_only false h = refl

urls_only : (us : List Bytes) → default_turn_urls us ≡ true → us ≡ []
urls_only [] h = refl
urls_only (u ∷ us) h = cc

address_only :
    (as' : List Bytes) → as' ≢ [] → default_addresses as' ≡ true → as' ≡ cfg_default.addresses
unfolding default_addresses
address_only [] some_address h = absurd (some_address refl)
address_only (a ∷ []) some_address h = ap (λ x. x ∷ []) (bytes_eq→eq a _ h)
address_only (a ∷ b ∷ rest) some_address h = cc

-- What a file written from the command line gives back to a command line of default values is the
-- command line it was written from, which has an address.
pub cmd_set-cmd_get : (f c : Values) → f.addresses ≢ [] → cmd_set (cmd_get f c) cfg_default ≡ f
unfolding cmd_set cmd_get bytes_eq
cmd_set-cmd_get f c some_address = λ k. record {
  pid_file = picked_back default_text f.pid_file [] refl (empty_only f.pid_file) k;
  log_file = picked_back default_text f.log_file [] refl (empty_only f.log_file) k;
  log_level = picked_back default_log_level f.log_level (pos 0) refl (number_only 0 f.log_level) k;
  addresses =
      picked_back default_addresses f.addresses cfg_default.addresses refl
        (address_only f.addresses some_address) k;
  cert = picked_back default_text f.cert [] refl (empty_only f.cert) k;
  key = picked_back default_text f.key [] refl (empty_only f.key) k;
  motd = picked_back default_text f.motd [] refl (empty_only f.motd) k;
  motd_always_display =
      picked_back default_off f.motd_always_display false refl (off_only f.motd_always_display) k;
  send_origin = picked_back default_send_origin f.send_origin true refl (λ e. e) k;
  screen_share = picked_back default_off f.screen_share false refl (off_only f.screen_share) k;
  turn_urls = picked_back default_turn_urls f.turn_urls [] refl (urls_only f.turn_urls) k;
  turn_secret = picked_back default_text f.turn_secret [] refl (empty_only f.turn_secret) k;
  turn_secret_file =
      picked_back default_text f.turn_secret_file [] refl (empty_only f.turn_secret_file) k;
  turn_ttl =
      picked_back default_turn_ttl f.turn_ttl (pos 3600) refl (number_only 3600 f.turn_ttl) k;
}
