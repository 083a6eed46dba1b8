-- ===== src/Config/Explicit.antt =====
-- server/cfg.go: what the command line sets, against the configuration file.
use nvda_remote_go.Prelude.{Bool, false, ◌≡◌}
use nvda_remote_go.Config.Values.{
  Values, default_text, default_log_level, default_addresses, default_off, default_send_origin,
  default_turn_urls, default_turn_ttl,
}

-- A value that is not the default one stays.
abbrev pub Stays {ℓ} : {A : Type ℓ} → (A → Bool) → A → A → Type ℓ
Stays is_default before after = is_default before ≡ false → after ≡ before

-- Every value of the command line `f` that is not the default one is also in `g`.
pub record Respects (f g : Values) : Type 0 where
  pub pid_file : Stays default_text f.pid_file g.pid_file
  pub log_file : Stays default_text f.log_file g.log_file
  pub log_level : Stays default_log_level f.log_level g.log_level
  pub addresses : Stays default_addresses f.addresses g.addresses
  pub cert : Stays default_text f.cert g.cert
  pub key : Stays default_text f.key g.key
  pub motd : Stays default_text f.motd g.motd
  pub motd_always_display : Stays default_off f.motd_always_display g.motd_always_display
  pub send_origin : Stays default_send_origin f.send_origin g.send_origin
  pub screen_share : Stays default_off f.screen_share g.screen_share
  pub turn_urls : Stays default_turn_urls f.turn_urls g.turn_urls
  pub turn_secret : Stays default_text f.turn_secret g.turn_secret
  pub turn_secret_file : Stays default_text f.turn_secret_file g.turn_secret_file
  pub turn_ttl : Stays default_turn_ttl f.turn_ttl g.turn_ttl
