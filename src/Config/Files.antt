-- ===== src/Config/Files.antt =====
-- server/file.go: paths, and the reading and writing of whole files. The disk with its working
-- directory is a type of the operating system, `D`.
use nvda_remote_go.Prelude.{
  ℕ, Bytes, Bool, true, false, Option, none, some, List, [], ◌∷◌, ◌++◌, not, ◌&&◌, ◌==◌,
  if◌then◌else◌, split_on,
}
use nvda_remote_go.Mux.Routes.{trim_suffix}

-- What os.Stat finds of a path: no such file, an error of another kind, a file or a directory.
pub data Stat : Type 0 where
  no_such unreadable : Stat
  is_there : Bool → Stat

-- What the code calls of os and of path/filepath, whose calls may fail.
pub record Os (D : Type 0) : Type 0 where
  pub abs : D → Bytes → Option Bytes
  pub eval_symlinks : D → Bytes → Option Bytes
  pub dir : Bytes → Bytes
  pub stat : D → Bytes → Stat
  pub read : D → Bytes → Option Bytes
  pub mkdir_all : D → Bytes → D × Bool
  pub truncate : D → Bytes → D × Bool
  pub write : D → Bytes → Bytes → D × Bool
  pub sync : D → Bytes → D
  pub shut : D → Bytes → D × Bool
  pub getwd : D → Option Bytes
  pub chdir : D → Bytes → D × Bool

-- The separator of paths.
abbrev pub separator : ℕ
separator = 47

-- `cleanPath`: the first double separator becomes one.
unfoldable pub clean_path : Bytes → Bytes
clean_path [] = []
clean_path (x ∷ []) = x ∷ []
clean_path (x ∷ y ∷ s) =
    let rest = clean_path (y ∷ s) in
    if x == separator && y == separator then separator ∷ s else x ∷ rest

module _ {D : Type 0} (os : Os D) where
  abbrev pub resolved_more : Option Bytes → Bytes → Bytes × Bool
  resolved_more none e = (e, true)
  resolved_more (some n) e = (n ++ separator ∷ [], false)

  abbrev pub resolved_next : Bool → D → Bytes → Bytes × Bool
  resolved_next true d e = (e, true)
  resolved_next false d e = resolved_more (os.eval_symlinks d e) e

  -- The loop of `fullPath`: links are resolved up to the first part that does not exist.
  unfoldable pub resolve_parts : D → List Bytes → Bytes → Bool → Bytes
  resolve_parts d [] e failed = e
  resolve_parts d (v ∷ vs) e failed =
      let next = resolved_next failed d (e ++ v ++ separator ∷ []) in
      resolve_parts d vs next.0 next.1

  abbrev pub path_resolved : D → Bytes → Option Bytes → Bytes
  path_resolved d path (some e) = clean_path e
  path_resolved d path none =
      clean_path (trim_suffix separator (resolve_parts d (split_on separator path) [] false))

  abbrev pub path_of : D → Bytes → Option Bytes → Bytes
  path_of d old none = clean_path old
  path_of d old (some path) = path_resolved d path (os.eval_symlinks d path)

  unfoldable pub full_path : D → Bytes → Bytes
  full_path d old = path_of d old (os.abs d old)

  -- `none` where the code calls a method of the nil `FileInfo`.
  abbrev pub exists_of : Stat → Option Bool
  exists_of no_such = some false
  exists_of unreadable = none
  exists_of (is_there is_dir) = some (not is_dir)

  unfoldable pub file_exists : D → Bytes → Option Bool
  file_exists d file = exists_of (os.stat d file)

  -- `cdir`, which does nothing unless the flag `-create` is set.
  unfoldable pub cdir : Bool → D → Bytes → D × Bool
  cdir create_dir d dir = if not create_dir then (d, true) else os.mkdir_all d dir

  -- The path that is opened, and whether its directory is there.
  unfoldable pub file_ops : Bool → D → Bytes → Bytes × (D × Bool)
  unfolding full_path cdir
  file_ops create_dir d file =
      let path = full_path d file in (path, cdir create_dir d (os.dir path))

  abbrev pub written_to : Bytes → D × Bool → D × Bool
  written_to file (d, false) = (d, false)
  written_to file (d, true) = os.shut (os.sync d file) file

  abbrev pub opened_for : Bytes → Bytes → D × Bool → D × Bool
  opened_for file data' (d, false) = (d, false)
  opened_for file data' (d, true) = written_to file (os.write d file data')

  abbrev pub prepared : Bytes → Bytes × (D × Bool) → D × Bool
  prepared data' (file, (d, false)) = (d, false)
  prepared data' (file, (d, true)) = opened_for file data' (os.truncate d file)

  unfoldable pub file_rewrite : Bool → D → Bytes → Bytes → D × Bool
  unfolding file_ops
  file_rewrite create_dir d file data' = prepared data' (file_ops create_dir d file)

  unfoldable pub file_read : D → Bytes → Option Bytes
  unfolding full_path
  file_read d file = os.read d (full_path d file)
