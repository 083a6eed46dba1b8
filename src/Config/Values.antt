-- ===== src/Config/Values.antt =====
-- server/defaults.go and cfg.go: the values of a configuration file, and the default ones.
use nvda_remote_go.Prelude.{
  ℕ, Bytes, Bool, true, false, List, [], ◌∷◌, codes, ℤ, pos, negsuc, not, ◌==◌, is_empty, bytes_eq,
  if◌then◌else◌,
}

-- The fields of `Cfg` that are stored.
pub record Values : Type 0 where
  pub pid_file : Bytes
  pub log_file : Bytes
  pub log_level : ℤ
  pub addresses : List Bytes
  pub cert : Bytes
  pub key : Bytes
  pub motd : Bytes
  pub motd_always_display : Bool
  pub send_origin : Bool
  pub screen_share : Bool
  pub turn_urls : List Bytes
  pub turn_secret : Bytes
  pub turn_secret_file : Bytes
  pub turn_ttl : ℤ

abbrev pub default_address : Bytes
default_address = codes ":6837"

abbrev pub cfg_default : Values
cfg_default = record {
  pid_file = [];
  log_file = [];
  log_level = pos 0;
  addresses = default_address ∷ [];
  cert = [];
  key = [];
  motd = [];
  motd_always_display = false;
  send_origin = true;
  screen_share = false;
  turn_urls = [];
  turn_secret = [];
  turn_secret_file = [];
  turn_ttl = pos 3600;
}

abbrev pub is_pos : ℕ → ℤ → Bool
is_pos n (pos m) = m == n
is_pos n (negsuc m) = false

-- `default_pid_file`, and all others whose default is the empty string.
abbrev pub default_text : Bytes → Bool
default_text p = is_empty p

abbrev pub default_log_level : ℤ → Bool
default_log_level p = is_pos 0 p

unfoldable pub default_addresses : List Bytes → Bool
default_addresses [] = true
default_addresses (a ∷ []) = bytes_eq a default_address
default_addresses (a ∷ b ∷ rest) = false

-- `default_motd_always_display` and `default_screen_share`, whose default is false.
abbrev pub default_off : Bool → Bool
default_off p = not p

abbrev pub default_send_origin : Bool → Bool
default_send_origin p = p

abbrev pub default_turn_urls : List Bytes → Bool
default_turn_urls [] = true
default_turn_urls (u ∷ us) = false

abbrev pub default_turn_ttl : ℤ → Bool
default_turn_ttl p = is_pos 3600 p

-- One of the tests of `IsDefault`, and what follows it.
abbrev pub default_and : Bool → Bool → Bool
default_and test rest = if not test then false else rest

unfoldable pub is_default : Values → Bool
unfolding default_addresses
is_default v = default_and (default_text v.pid_file) (
    default_and (default_text v.log_file) (
      default_and (default_log_level v.log_level) (
        default_and (default_addresses v.addresses) (
          default_and (default_text v.cert) (
            default_and (default_text v.key) (
              default_and (default_text v.motd) (
                default_and (default_off v.motd_always_display) (
                  default_and (default_send_origin v.send_origin) (
                    default_and (default_off v.screen_share) (
                      default_and (default_turn_urls v.turn_urls) (
                        default_and (default_text v.turn_secret) (
                          default_and (default_text v.turn_secret_file)
                            (default_and (default_turn_ttl v.turn_ttl) true)))))))))))))
