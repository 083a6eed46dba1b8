-- ===== src/Config/Generated.antt =====
-- server/cfg.go, file.go: a configuration that `Generate` has written, and a process that reads it.
use nvda_remote_go.Prelude.{
  ◌≡◌, refl, Bytes, Bool, true, false, some, [], ◌∷◌, not, ◌&&◌, is_empty, has_prefix,
  if◌then◌else◌,
}
use nvda_remote_go.Config.Values.{Values}
use nvda_remote_go.Config.Files.{
  Os, separator, full_path, written_to, opened_for, prepared, cdir, file_ops, file_rewrite,
}
use nvda_remote_go.Config.File.{Process, Codec, read}

-- What the code relies on of the disk: what has been written whole to a file that was opened empty is
-- read back, also after the file is closed, and from another working directory where the path is
-- absolute.
pub record IsDisk {D : Type 0} (os : Os D) : Type 0 where
  pub written :
      (d : D) (path b : Bytes)
      → (os.truncate d path).1 ≡ true
      → (os.write (os.truncate d path).0 path b).1 ≡ true
      → os.read (os.write (os.truncate d path).0 path b).0 path ≡ some b
  pub synced :
      (d : D) (path b : Bytes) → os.read d path ≡ some b → os.read (os.sync d path) path ≡ some b
  pub closed :
      (d : D) (path b : Bytes) → os.read d path ≡ some b → os.read (os.shut d path).0 path ≡ some b
  pub moved :
      (d : D) (dir path b : Bytes)
      → has_prefix (separator ∷ []) path ≡ true
      → os.read d path ≡ some b
      → os.read (os.chdir d dir).0 path ≡ some b

module _ {D : Type 0} (os : Os D) (disk : IsDisk os) where
  written_to-reads :
      (path b : Bytes) (x : D × Bool)
      → (x.1 ≡ true → os.read x.0 path ≡ some b)
      → (written_to os path x).1 ≡ true
      → os.read (written_to os path x).0 path ≡ some b
  written_to-reads path b (d, false) h e = cc
  written_to-reads path b (d, true) h e =
      disk.closed (os.sync d path) path b (disk.synced d path b (h refl))

  opened_for-reads :
      (path b : Bytes) (x : D × Bool)
      → (x.1 ≡ true
          → (os.write x.0 path b).1 ≡ true
          → os.read (os.write x.0 path b).0 path ≡ some b)
      → (opened_for os path b x).1 ≡ true
      → os.read (opened_for os path b x).0 path ≡ some b
  opened_for-reads path b (d, false) h e = cc
  opened_for-reads path b (d, true) h e = written_to-reads path b (os.write d path b) (h refl) e

  prepared-reads :
      (path b : Bytes) (x : D × Bool)
      → (prepared os b (path, x)).1 ≡ true
      → os.read (prepared os b (path, x)).0 path ≡ some b
  prepared-reads path b (d, false) e = cc
  prepared-reads path b (d, true) e =
      opened_for-reads path b (os.truncate d path) (disk.written d path b) e

  -- A file that has been replaced is read back.
  pub file_rewrite-reads :
      (create_dir : Bool) (d : D) (file b : Bytes)
      → (file_rewrite os create_dir d file b).1 ≡ true
      → os.read (file_rewrite os create_dir d file b).0 (full_path os d file) ≡ some b
  unfolding file_rewrite file_ops
  file_rewrite-reads create_dir d file b e =
      prepared-reads (full_path os d file) b (cdir os create_dir d (os.dir (full_path os d file))) e

  module _ (codec : Codec) where
    -- Where a file that is written ends up.
    abbrev pub written_path : D → Bytes → Bytes
    written_path d file = full_path os d (full_path os d file)

    -- A process that has written its values, at `path`.
    record HasWritten (v : Values) (path : Bytes) (p : Process D) : Type 0 where
      text : Bytes
      encoded : codec.encode v ≡ some text
      reads : os.read p.disk path ≡ some text
      same : p.values ≡ v

    -- The configuration that a command line makes: a certificate that is to be generated is the
    -- certificate and the key, where neither is given.
    abbrev pub configuration_of : Process D → Values
    configuration_of p =
        if is_empty p.flags.cert && is_empty p.flags.key && not (is_empty p.gen_cert_file)
        then record p.flags { cert = p.gen_cert_file; key = p.gen_cert_file }
        else p.flags
