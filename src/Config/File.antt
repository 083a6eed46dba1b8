-- ===== src/Config/File.antt =====
-- server/cfg.go: the search, the reading and the generation of the configuration file. What the
-- source logs of it is left out.
use nvda_remote_go.Prelude.{
  Bytes, Bool, true, false, Option, none, some, [], ◌∷◌, ◌++◌, codes, not, ◌&&◌, ◌||◌, is_empty,
  bytes_eq, if◌then◌else◌,
}
use nvda_remote_go.Config.Values.{Values, default_text, is_default}
use nvda_remote_go.Config.Flags.{cmd_get, cmd_set}
use nvda_remote_go.Config.Files.{Os, separator, full_path, file_exists, file_rewrite, file_read}

-- The variables of the command line that the configuration reads, the fields of the `Cfg`, and the
-- disk.
pub record Process (D : Type 0) : Type 0 where
  pub values : Values
  pub flags : Values
  pub conf_file : Bytes
  pub conf_read : Bool
  pub gen_conf_file : Bytes
  pub gen_conf_dir : Bool
  pub gen_cert_file : Bytes
  pub create_dir : Bool
  pub disk : D

-- `cfg_write` and `cfg_read`, which encoding/json does: a decoding that fails may have set some
-- fields. `conf_dir` is the directory that the operating system has for configurations.
pub record Codec : Type 0 where
  pub encode : Values → Option Bytes
  pub decode : Bytes → Values → Values × Bool
  pub conf_dir : Bytes

abbrev pub default_conf_name : Bytes
default_conf_name = codes "nvdaRemoteServer.json"

module _ {D : Type 0} (os : Os D) (codec : Codec) where
  abbrev pub user_conf_file : Bytes
  user_conf_file = codec.conf_dir ++ separator ∷ default_conf_name

  abbrev pub moved_to : Process D → D × Bool → Process D
  moved_to p (d, moved) = record p { disk = d }

  unfoldable pub moved_from : Bytes → Process D → Option Bytes → Process D
  unfolding full_path
  moved_from dir p none = p
  moved_from dir p (some at') =
      if bytes_eq (full_path os p.disk at') (full_path os p.disk dir)
      then p
      else moved_to p (os.chdir p.disk (full_path os p.disk dir))

  -- `Cwd`
  unfoldable pub change_directory : Bytes → Process D → Process D
  unfolding moved_from
  change_directory dir p = moved_from dir p (os.getwd p.disk)

  unfoldable pub write_encoded : Bytes → Process D → Option Bytes → Process D × Bool
  unfolding full_path file_rewrite
  write_encoded file p none = (p, false)
  write_encoded file p (some b) =
      let w = file_rewrite os p.create_dir p.disk (full_path os p.disk file) b in
      (record p { disk = w.0 }, w.1)

  unfoldable pub write_file : Bytes → Process D → Process D × Bool
  unfolding write_encoded
  write_file file p =
      if is_empty file || is_default p.values
      then (p, false)
      else write_encoded file p (codec.encode p.values)

  unfoldable pub found_at : Bytes → Option Bool → Option Bytes
  found_at f none = none
  found_at f (some there) = some (if there then f else [])

  -- The path of the file, empty where it is not found; `none` where `fileExists` panics.
  unfoldable pub search_file : Bytes → D → Option Bytes
  unfolding full_path file_exists found_at
  search_file f d = found_at (full_path os d f) (file_exists os d (full_path os d f))

  unfoldable pub or_search : Bytes → D → Option Bytes → Option Bytes
  or_search f d none = none
  or_search f d (some cf) = if not (is_empty cf) then some cf else search_file f d

  unfoldable pub find_file : Bytes → D → Option Bytes
  unfolding or_search
  find_file conf_file d =
      if not (default_text conf_file)
      then search_file conf_file d
      else or_search user_conf_file d (search_file default_conf_name d)

  unfoldable pub decoded_from : Bytes → Process D → Values × Bool → Process D × Bool
  decoded_from f p (c, false) = (record p { values = c }, false)
  decoded_from f p (c, true) = (change_directory (os.dir f) (record p { values = c }), true)

  unfoldable pub read_from : Bytes → Process D → Option Bytes → Process D × Bool
  unfolding decoded_from
  read_from f p none = (p, false)
  read_from f p (some b) = decoded_from f p (codec.decode b p.values)

  unfoldable pub read_found : Process D → Option Bytes → Option (Process D × Bool)
  unfolding file_read read_from
  read_found p none = none
  read_found p (some f) =
      some (if is_empty f then (p, false) else read_from f p (file_read os p.disk f))

  -- `Read`, with whether it returns no error; `none` where it panics.
  unfoldable pub read : Process D → Option (Process D × Bool)
  unfolding read_found
  read p = if not p.conf_read then some (p, true) else read_found p (find_file p.conf_file p.disk)

  abbrev pub target_file : Process D → Bytes
  target_file p =
      if default_text p.gen_conf_file && p.gen_conf_dir then user_conf_file else p.gen_conf_file

  -- The certificate that is to be generated is the one of the file.
  abbrev pub with_certificate : Process D → Process D
  with_certificate p =
      if default_text p.values.cert
        && default_text p.values.key
        && not (default_text p.gen_cert_file)
      then record p { values = record p.values { cert = p.gen_cert_file; key = p.gen_cert_file } }
      else p

  unfoldable pub entered : Bytes → Process D × Bool → Process D × Bool
  entered f (p, false) = (p, false)
  entered f (p, true) = (change_directory (os.dir f) p, true)

  unfoldable pub generated : Bytes → Process D → Process D × Bool
  unfolding entered
  generated f p =
      if is_default p.values then (p, true) else entered f (write_file f (with_certificate p))

  -- The directory is created for the file of the user; the flag is restored by a deferred call.
  unfoldable pub generate : Process D → Process D × Bool
  unfolding generated
  generate p =
      let made = generated (target_file p) (record p {
        values = cmd_get p.flags p.values;
        create_dir = (default_text p.gen_conf_file && p.gen_conf_dir) || p.create_dir;
      }) in
      (record made.0 { create_dir = p.create_dir }, made.1)

  abbrev pub gen_conf_check : Process D → Bool
  gen_conf_check p = not (default_text p.gen_conf_file) || p.gen_conf_dir

  unfoldable pub merged : Bool → Process D → Process D
  merged true p = record p { flags = cmd_set p.values p.flags }
  merged false p = p

  unfoldable pub after_read : Option (Process D × Bool) → Option (Process D × Bool)
  unfolding merged
  after_read none = none
  after_read (some (p, read_ok)) = some (merged read_ok p, read_ok || default_text p.conf_file)

  abbrev pub without_file : Process D → Process D
  without_file p = if not p.conf_read then record p { conf_file = [] } else p

  -- What follows the reset of the name of the file.
  unfoldable pub set_up : Process D → Option (Process D × Bool)
  unfolding after_read
  set_up p =
      if gen_conf_check p && default_text p.conf_file
      then some (generate p)
      else after_read (read p)

  -- `Setup`, with whether it returns no error; `none` where a panic ends it, which the deferred
  -- call recovers.
  unfoldable pub setup : Process D → Option (Process D × Bool)
  unfolding set_up
  setup p = set_up (without_file p)
