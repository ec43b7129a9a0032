-- ===== src/Workspace/Turns.antt =====
-- One name of the workspace's root, in the loops of src/workspace_snapshot.rs and of
-- src/workspace_fingerprint.rs.
use zyguor_agent_execution_g.Base.{
  String, ◌<>◌, ◌≡◌, refl, arith, string_eq, Option, none, some, List, [], ◌∷◌, Result, ok, err,
}
use zyguor_agent_execution_g.Workspace.{
  Bytes, Node, file, directory, unlisted, symbolic_link, other, uninspected, end,
}
use zyguor_agent_execution_g.Workspace.Fingerprint.{
  Found, collect_node, root_file, source_directory,
}
use zyguor_agent_execution_g.Workspace.Snapshot.{
  Destination, put, copy_root_file, copy_source_directory, copy_directory, child, or_else,
  snapshot_root,
}
use zyguor_agent_execution_g.Workspace.Copied.{
  Mirrors, directory-ok, checked-ok, err-ok, copy_file-ok, copy_directory-Mirrors,
}

-- An entry that is left out on both sides.
Mirrors-nothing :
    (at : Option Node → Result (List Found) String) (o : Option Node)
    → at none ≡ ok []
    → ◌≡◌ {A = Result (Option Node) String} (ok none) (ok o)
    → Mirrors (ok []) (at o)
Mirrors-nothing at o e h =
    let nothing : o ≡ none = ground (arith, h) in ([], refl, rw (nothing) e, tt)

module _ (workspace : String) (destination : Destination) (utf8 : String → Bytes) where
  pub copy_root_file-Mirrors :
      (name : String) (node o : Option Node)
      → copy_root_file workspace destination name node ≡ ok o
      → Mirrors (root_file workspace utf8 name node) (root_file destination.path utf8 name o)
  unfolding copy_root_file root_file
  copy_root_file-Mirrors name none o h =
      Mirrors-nothing (root_file destination.path utf8 name) o refl h
  copy_root_file-Mirrors name (some (file contents)) o h =
      let (bytes, p, q) =
        copy_file-ok workspace destination utf8 ("failed to copy workspace file '" <> name <> "': ")
          (name ∷ []) contents o h in
      ((name ∷ [], ok bytes) ∷ [], rw (p) refl, rw (q) refl, ((bytes, refl), tt))
  copy_root_file-Mirrors name (some symbolic_link) o h = cc
  copy_root_file-Mirrors name (some (uninspected error)) o h = cc
  copy_root_file-Mirrors name (some (directory entries)) o h =
      Mirrors-nothing (root_file destination.path utf8 name) o refl h
  copy_root_file-Mirrors name (some (unlisted error)) o h =
      Mirrors-nothing (root_file destination.path utf8 name) o refl h
  copy_root_file-Mirrors name (some other) o h =
      Mirrors-nothing (root_file destination.path utf8 name) o refl h

  pub copy_source_directory-Mirrors :
      (name : String) (node o : Option Node)
      → copy_source_directory workspace destination name node ≡ ok o
      → Mirrors
          (source_directory workspace utf8 name node)
          (source_directory destination.path utf8 name o)
  unfolding copy_source_directory source_directory collect_node
  copy_source_directory-Mirrors name none o h =
      Mirrors-nothing (source_directory destination.path utf8 name) o refl h
  copy_source_directory-Mirrors name (some (file contents)) o h =
      Mirrors-nothing (source_directory destination.path utf8 name) o refl h
  copy_source_directory-Mirrors name (some other) o h =
      Mirrors-nothing (source_directory destination.path utf8 name) o refl h
  copy_source_directory-Mirrors name (some symbolic_link) o h = cc
  copy_source_directory-Mirrors name (some (uninspected error)) o h = cc
  copy_source_directory-Mirrors name (some (unlisted error)) o h =
      let refused : Result (Option Node) String =
        err ("failed to read workspace directory '" <> name <> "': " <> error) in
      let past =
        checked-ok ("failed to create snapshot directory '" <> name <> "': ")
          (destination.create_dir (name ∷ [])) refused o h in
      absurd (err-ok past)
  copy_source_directory-Mirrors name (some (directory entries)) o h =
      let (entries', p, q) =
        directory-ok ("failed to create snapshot directory '" <> name <> "': ")
          (destination.create_dir (name ∷ []))
          (copy_directory workspace destination (name ∷ []) entries) o h in
      let (files, r, s, t) =
        copy_directory-Mirrors workspace destination utf8 (name ∷ []) entries entries' p in
      (files, r, rw (q) s, t)

-- What stands where in a snapshot.
files_child :
    (a b c : Option Node)
    → let all = put "Cargo.toml" a (put "Cargo.lock" b (put "build.rs" c end)) in
      (child all "Cargo.toml" ≡ a)
      × (child all "Cargo.lock" ≡ b)
      × (child all "build.rs" ≡ c)
      × (child all "src" ≡ none)
      × (child all "tests" ≡ none)
files_child none none none = (refl, refl, refl, refl, refl)
files_child none none (some z) = (refl, refl, refl, refl, refl)
files_child none (some y) none = (refl, refl, refl, refl, refl)
files_child none (some y) (some z) = (refl, refl, refl, refl, refl)
files_child (some x) none none = (refl, refl, refl, refl, refl)
files_child (some x) none (some z) = (refl, refl, refl, refl, refl)
files_child (some x) (some y) none = (refl, refl, refl, refl, refl)
files_child (some x) (some y) (some z) = (refl, refl, refl, refl, refl)

directories_child :
    (a b : Option Node)
    → let all = put "src" a (put "tests" b end) in
      (child all "Cargo.toml" ≡ none)
      × (child all "Cargo.lock" ≡ none)
      × (child all "build.rs" ≡ none)
      × (child all "src" ≡ a)
      × (child all "tests" ≡ b)
directories_child none none = (refl, refl, refl, refl, refl)
directories_child none (some y) = (refl, refl, refl, refl, refl)
directories_child (some x) none = (refl, refl, refl, refl, refl)
directories_child (some x) (some y) = (refl, refl, refl, refl, refl)

or_else-none : (o : Option Node) → or_else o none ≡ o
or_else-none none = refl
or_else-none (some node) = refl

pub snapshot_files :
    (a b c d e : Option Node)
    → let root = snapshot_root (
      put "Cargo.toml" a (put "Cargo.lock" b (put "build.rs" c end)),
      put "src" d (put "tests" e end),
    ) in
      (root "Cargo.toml" ≡ a)
      × (root "Cargo.lock" ≡ b)
      × (root "build.rs" ≡ c)
      × (root "src" ≡ d)
      × (root "tests" ≡ e)
snapshot_files a b c d e =
    let (fa, fb, fc, fd, fe) = files_child a b c in
    let (da, db, dc, dd, de) = directories_child d e in
    (
      rw (fa, da) (or_else-none a),
      rw (fb, db) (or_else-none b),
      rw (fc, dc) (or_else-none c),
      rw (fd, dd) refl,
      rw (fe, de) refl,
    )
