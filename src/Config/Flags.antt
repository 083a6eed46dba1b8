-- ===== src/Config/Flags.antt =====
-- server/cfg.go `CmdGet` and `CmdSet`: the values of the command line and those of the file.
use nvda_remote_go.Prelude.{Bool, not, ◌&&◌, if◌then◌else◌}
use nvda_remote_go.Config.Values.{
  Values, default_text, default_log_level, default_addresses, default_off, default_send_origin,
  default_turn_urls, default_turn_ttl,
}

-- `CmdGet`: every value is that of the command line.
unfoldable pub cmd_get : Values → Values → Values
cmd_get flags c = record c {
  pid_file = flags.pid_file;
  log_file = flags.log_file;
  log_level = flags.log_level;
  addresses = flags.addresses;
  cert = flags.cert;
  key = flags.key;
  motd = flags.motd;
  motd_always_display = flags.motd_always_display;
  send_origin = flags.send_origin;
  screen_share = flags.screen_share;
  turn_urls = flags.turn_urls;
  turn_secret = flags.turn_secret;
  turn_secret_file = flags.turn_secret_file;
  turn_ttl = flags.turn_ttl;
}

-- The value of the file is taken where it is not the default one and that of the command line is.
abbrev pub pick {ℓ} : {A : Type ℓ} → (A → Bool) → A → A → A
pick is_default file flag = if not (is_default file) && is_default flag then file else flag

-- `CmdSet`: the values of the command line afterwards.
unfoldable pub cmd_set : Values → Values → Values
unfolding default_addresses
cmd_set c flags = record {
  pid_file = pick default_text c.pid_file flags.pid_file;
  log_file = pick default_text c.log_file flags.log_file;
  log_level = pick default_log_level c.log_level flags.log_level;
  addresses = pick default_addresses c.addresses flags.addresses;
  cert = pick default_text c.cert flags.cert;
  key = pick default_text c.key flags.key;
  motd = pick default_text c.motd flags.motd;
  motd_always_display = pick default_off c.motd_always_display flags.motd_always_display;
  send_origin = pick default_send_origin c.send_origin flags.send_origin;
  screen_share = pick default_off c.screen_share flags.screen_share;
  turn_urls = pick default_turn_urls c.turn_urls flags.turn_urls;
  turn_secret = pick default_text c.turn_secret flags.turn_secret;
  turn_secret_file = pick default_text c.turn_secret_file flags.turn_secret_file;
  turn_ttl = pick default_turn_ttl c.turn_ttl flags.turn_ttl;
}
