-- ===== src/Config/Reading.antt =====
-- server/cfg.go: what `Setup` makes of the command line, whatever the files are.
use nvda_remote_go.Prelude.{
  Bytes, Bool, true, false, Option, none, some, [], not, sym, ◌∙◌, ◌&&◌, ◌≡◌, refl, ap, arith,
  bytes_eq, if◌then◌else◌, subst, is_empty,
}
use nvda_remote_go.Config.Values.{Values, cfg_default, default_text, is_default}
use nvda_remote_go.Config.Flags.{cmd_get, cmd_set}
use nvda_remote_go.Config.Files.{Os, full_path, file_exists, file_read}
use nvda_remote_go.Config.File.{
  Process, Codec, moved_from, change_directory, write_encoded, write_file, search_file, entered,
  decoded_from, read_from, found_at, after_read, merged, read_found, generated, with_certificate,
  generate, gen_conf_check, without_file, set_up, setup, read,
}

module _ {D : Type 0} (os : Os D) (codec : Codec) where
  found_at_lem :
      (f g : Bytes) (o : Option Bool)
      → found_at os codec f o ≡ some g
      → is_empty g ≡ false
      → (f ≡ g) × (o ≡ some true)
  unfolding found_at
  found_at_lem f g none e h = cc
  found_at_lem f g (some true) e h = (ground (arith, e), refl)
  found_at_lem f g (some false) e h = ground (arith, e, h)

  -- What a search finds is a file that is there, at the full path of what is sought.
  pub search_file_lem :
      (f g : Bytes) (d : D)
      → search_file os codec f d ≡ some g
      → is_empty g ≡ false
      → (g ≡ full_path os d f) × (file_exists os d g ≡ some true)
  unfolding search_file found_at
  search_file_lem f g d e h =
      let x = found_at_lem (full_path os d f) g (file_exists os d (full_path os d f)) e h in
      (sym x.0, ap (file_exists os d) (sym x.0) ∙ x.1)

  moved_from-flags :
      (dir : Bytes) (p : Process D) (o : Option Bytes)
      → (moved_from os codec dir p o).flags ≡ p.flags
  unfolding moved_from
  moved_from-flags dir p none = refl
  moved_from-flags dir p (some at') = ground arith

  pub change_directory-flags :
      (dir : Bytes) (p : Process D) → (change_directory os codec dir p).flags ≡ p.flags
  unfolding change_directory
  change_directory-flags dir p = moved_from-flags dir p (os.getwd p.disk)

  write_encoded-flags :
      (file : Bytes) (p : Process D) (o : Option Bytes)
      → (write_encoded os codec file p o).0.flags ≡ p.flags
  unfolding write_encoded
  write_encoded-flags file p none = refl
  write_encoded-flags file p (some b) = refl

  write_file-flags : (file : Bytes) (p : Process D) → (write_file os codec file p).0.flags ≡ p.flags
  unfolding write_file
  write_file-flags file p = ground (arith, write_encoded-flags file p (codec.encode p.values))

  entered-flags : (f : Bytes) (x : Process D × Bool) → (entered os codec f x).0.flags ≡ x.0.flags
  unfolding entered
  entered-flags f (p, false) = refl
  entered-flags f (p, true) = change_directory-flags (os.dir f) p

  generated-flags : (f : Bytes) (p : Process D) → (generated os codec f p).0.flags ≡ p.flags
  unfolding generated
  generated-flags f p = ground (
    arith,
    entered-flags f (write_file os codec f (with_certificate os codec p)),
    write_file-flags f (with_certificate os codec p),
  )

  generate-flags : (p : Process D) → (generate os codec p).0.flags ≡ p.flags
  unfolding generate
  generate-flags p = generated-flags _ _

  decoded_from-flags :
      (f : Bytes) (p : Process D) (x : Values × Bool)
      → (decoded_from os codec f p x).0.flags ≡ p.flags
  unfolding decoded_from
  decoded_from-flags f p (c, false) = refl
  decoded_from-flags f p (c, true) = change_directory-flags (os.dir f) (record p { values = c })

  read_from-flags :
      (f : Bytes) (p : Process D) (o : Option Bytes) → (read_from os codec f p o).0.flags ≡ p.flags
  unfolding read_from
  read_from-flags f p none = refl
  read_from-flags f p (some b) = decoded_from-flags f p (codec.decode b p.values)

  -- With default values on the command line nothing is generated, and nothing is an error.
  pub generate-is_default :
      (p : Process D)
      → is_default p.flags ≡ true
      → ((generate os codec p).0.disk ≡ p.disk) × ((generate os codec p).1 ≡ true)
  unfolding generate generated cmd_get is_default
  generate-is_default p h = rw h (refl, refl)

  cmd_set-default : (f : Values) → cmd_set cfg_default f ≡ f
  unfolding cmd_set bytes_eq
  cmd_set-default f = refl

  -- What a result of `Read` keeps, and what one of `Setup` may do.
  abbrev Kept : Process D → Option (Process D × Bool) → Type 0
  Kept p none = Unit {0}
  Kept p (some x) = x.0.flags ≡ p.flags

  abbrev Sets : Values → Option (Process D × Bool) → Type 0
  Sets f none = Unit {0}
  Sets f (some x) = (c : Values) × (x.0.flags ≡ cmd_set c f)

  read_found-Kept : (p : Process D) (o : Option Bytes) → Kept p (read_found os codec p o)
  unfolding read_found
  read_found-Kept p none = tt
  read_found-Kept p (some f) = ground (arith, read_from-flags f p (file_read os p.disk f))

  if-Kept :
      (b : Bool) (p : Process D) (x y : Option (Process D × Bool))
      → Kept p x
      → Kept p y
      → Kept p (if b then x else y)
  if-Kept true p x y u v = u
  if-Kept false p x y u v = v

  read-Kept : (p : Process D) → Kept p (read os codec p)
  unfolding read
  read-Kept p = if-Kept (not p.conf_read) p _ _ refl (read_found-Kept p _)

  if-Sets :
      (b : Bool) (f : Values) (x y : Option (Process D × Bool))
      → Sets f x
      → Sets f y
      → Sets f (if b then x else y)
  if-Sets true f x y u v = u
  if-Sets false f x y u v = v

  after_read-Sets :
      (p : Process D) (o : Option (Process D × Bool))
      → Kept p o
      → Sets p.flags (after_read os codec o)
  unfolding after_read merged
  after_read-Sets p none k = tt
  after_read-Sets p (some (q, true)) k = (q.values, ap (cmd_set q.values) k)
  after_read-Sets p (some (q, false)) k = (cfg_default, k ∙ sym (cmd_set-default p.flags))

  generate-Sets : (p : Process D) → Sets p.flags (some (generate os codec p))
  generate-Sets p = (cfg_default, generate-flags p ∙ sym (cmd_set-default p.flags))

  set_up-Sets : (p : Process D) → Sets p.flags (set_up os codec p)
  unfolding set_up
  set_up-Sets p =
      if-Sets (gen_conf_check os codec p && default_text p.conf_file) p.flags
        (some (generate os codec p)) (after_read os codec (read os codec p)) (generate-Sets p)
        (after_read-Sets p (read os codec p) (read-Kept p))

  without_file-flags : (p : Process D) → (without_file os codec p).flags ≡ p.flags
  without_file-flags p = ground arith

  setup-Sets : (p : Process D) → Sets p.flags (setup os codec p)
  unfolding setup
  setup-Sets p =
      let q = without_file os codec p in
      subst (λ f. Sets f (set_up os codec q)) (without_file-flags p) (set_up-Sets q)

  -- Whatever the files are, and whether it succeeds or not, `Setup` either leaves the command line
  -- as it was or takes from a file only the values that the command line left at their defaults.
  pub setup-cmd_set :
      (p q : Process D) (ok : Bool)
      → setup os codec p ≡ some (q, ok)
      → (c : Values) × (q.flags ≡ cmd_set c p.flags)
  setup-cmd_set p q ok e = subst (Sets p.flags) e (setup-Sets p)

  -- A process that reads no configuration file keeps its command line.
  pub setup-unread :
      (p : Process D)
      → p.conf_read ≡ false
      → p.values ≡ cfg_default
      → gen_conf_check os codec p ≡ false
      → setup os codec p ≡ some (record p { conf_file = [] }, true)
  unfolding setup set_up read after_read merged
  setup-unread p h v g = rw (h, g, v, cmd_set-default p.flags) refl

  -- A file that cannot be found, read or decoded leaves the command line as it is, and is an error
  -- only if it was asked for by name.
  pub setup-unreadable :
      (p q : Process D)
      → p.conf_read ≡ true
      → gen_conf_check os codec p ≡ false
      → read os codec p ≡ some (q, false)
      → setup os codec p ≡ some (q, default_text q.conf_file)
  unfolding setup set_up after_read merged
  setup-unreadable p q h g e = ground (arith, h, g, e)
