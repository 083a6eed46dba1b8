-- ===== src/Examples/Configurations.antt =====
-- Configurations, routing rules and connections. The functions of the standard library are stand-ins.
use nvda_remote_go.Prelude.{
  ◌≡◌, refl, Bytes, true, false, some, [], ◌∷◌, ◌++◌, codes, pos, bytes_eq, if◌then◌else◌,
  contains_any, has_prefix,
}
use nvda_remote_go.Config.Values.{Values, cfg_default}
use nvda_remote_go.Config.Files.{Os, is_there}
use nvda_remote_go.Config.File.{Process, Codec}
use nvda_remote_go.Config.Relays.{
  RelayFlags, as_config, http_relay_config_from_flags, validate_http_relay_configuration,
}
use nvda_remote_go.Config.Checked.{IsFit, validate-IsFit}
use nvda_remote_go.Relay.Paths.{normalize_http_relay_path}
use nvda_remote_go.Relay.Create.{Gate}
use nvda_remote_go.Hub.Blocklist.{connection_refusal}
use nvda_remote_go.Hub.Registry.{find_client}
use nvda_remote_go.Framing.RoundTrip.{written, read_messages}
use nvda_remote_go.Mux.Routes.{Names, cut, set_route, target_of, trim_suffix}
use nvda_remote_go.Mux.Names.{target_of-set_route}
use nvda_remote_go.Mux.Connections.{Network, raw_client, classify}
use nvda_remote_go.Mux.Kept.{classify-read}
use nvda_remote_go.Examples.Hubs.{empty_hub}
use nvda_remote_go.Examples.Requests.{http}

abbrev flags : Values
flags = record cfg_default { motd = codes "hello"; send_origin = false; turn_ttl = pos 60 }

-- One file, that is wherever it is sought, and whose values are `stored`.
abbrev stored : Values
stored = record cfg_default { motd = codes "other"; log_level = pos 2 }

abbrev one_file : Os Bytes
one_file = record {
  abs = λ d path. some path;
  eval_symlinks = λ d path. some path;
  dir = λ path. codes "/";
  stat = λ d path. is_there false;
  read = λ d path. some d;
  mkdir_all = λ d path. (d, true);
  truncate = λ d path. ([], true);
  write = λ d path b. (b, true);
  sync = λ d path. d;
  shut = λ d path. (d, true);
  getwd = λ d. some (codes "/");
  chdir = λ d path. (d, true);
}

abbrev codec : Codec
codec = record {
  encode = λ v. some (codes "{}");
  decode = λ b v. (stored, true);
  conf_dir = codes "/conf";
}

abbrev started : Process Bytes
started = record {
  values = cfg_default;
  flags = flags;
  conf_file = [];
  conf_read = true;
  gen_conf_file = [];
  gen_conf_dir = false;
  gen_cert_file = [];
  create_dir = false;
  disk = codes "{}";
}

-- A disk of one file, whose codec knows one configuration, that of a process that generates it with
-- its certificate.
abbrev with_pem : Values
with_pem = record flags { cert = codes "a.pem"; key = codes "a.pem" }

abbrev pem_codec : Codec
pem_codec = record {
  encode = λ v. some (codes "{}");
  decode = λ b v. (with_pem, true);
  conf_dir = codes "/conf";
}

abbrev generating : Process Bytes
generating = record started { gen_conf_file = codes "/a.json"; gen_cert_file = codes "a.pem" }

abbrev reading : Process Bytes
reading = record started { flags = cfg_default; conf_file = codes "/a.json" }

abbrev relay_flags : RelayFlags
relay_flags = record {
  poll_wait = pos 25;
  session_ttl = pos 120;
  max_sessions = pos 1000;
  max_sessions_per_ip = pos 20;
  max_message_bytes = pos 1048576;
  max_batch_messages = pos 32;
  max_outbound_backlog = pos 256;
  max_pending_bytes = pos 4194304;
  stream_keepalive = pos 15;
}

validate-IsFit_example :
    IsFit (as_config (http_relay_config_from_flags relay_flags))
    × (bytes_eq
          (normalize_http_relay_path http (codes "/v1"))
          (normalize_http_relay_path http (codes "/admin"))
        ≡ false)
    × (bytes_eq
          (normalize_http_relay_path http (codes "/v2"))
          (normalize_http_relay_path http (codes "/v1"))
        ≡ false)
    × (bytes_eq
          (normalize_http_relay_path http (codes "/v2"))
          (normalize_http_relay_path http (codes "/admin"))
        ≡ false)
unfolding normalize_http_relay_path bytes_eq has_prefix contains_any http_relay_config_from_flags
    validate_http_relay_configuration
validate-IsFit_example =
    validate-IsFit http true (codes "/v1") true (codes "/v2") (codes "/admin") 1 relay_flags refl

abbrev names : Names
names = record {
  to_lower = λ s. s;
  trim_space = λ s. s;
  split_host_port = λ s. some (s, s);
  hello_name = λ s. s;
}

target_of-set_route_example :
    target_of names (codes "turn.") (set_route names (codes "turn=host") []).0 ≡ (
      if bytes_eq (codes "turn") (trim_suffix 46 (codes "turn."))
      then codes "host"
      else target_of names (codes "turn.") [])
unfolding cut set_route contains_any
target_of-set_route_example =
    target_of-set_route names (codes "turn=host") (codes "turn") (codes "host") [] (codes "turn.")
      refl refl

abbrev network : Network
network = record {
  deadline_set = true;
  handshake_done = true;
  deadline_cleared = true;
  accepts = true;
}

abbrev gate : Gate
gate = record { admin_enabled = true; password_defined = true }

abbrev bytes : Bytes
bytes = written 10 ((123 ∷ codes "}") ∷ codes "next" ∷ []) ++ codes "{"

classify-read_example :
    (s : Bytes) × ((classify network gate 5 (codes "10.0.0.1") 9 bytes empty_hub).1 ≡ raw_client s)
    × (read_messages 10 2 s ≡ some ((123 ∷ codes "}") ∷ codes "next" ∷ [], codes "{"))
    × (find_client 1 (classify network gate 5 (codes "10.0.0.1") 9 bytes empty_hub).0 ≡ true)
unfolding connection_refusal
classify-read_example =
    classify-read network gate 5 (codes "10.0.0.1") 9 empty_hub (codes "}") (codes "next" ∷ [])
      (codes "{") refl refl refl refl (refl, (refl, tt))
