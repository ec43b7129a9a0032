-- ===== src/Files/Confined.antt =====
-- A resolved path is in the workspace.
use zyguor_agent_execution_g.Base.{
  String, ◌<>◌, ◌≡◌, refl, arith, Bool, true, false, not, [], ◌∷◌, Result, ok, bind-ok, map_err-ok,
  fail_if-ok, map_err, fail_if, ok_or, ◌>>=◌, ◌>>◌, if◌then◌else◌,
}
use zyguor_agent_execution_g.Base.Paths.{FilePath, starts_with, join, parent, file_name}
use zyguor_agent_execution_g.Files.{validate_relative_path}
use zyguor_agent_execution_g.Files.Resolve.{
  Ambient, resolve_existing_path, resolve_present, resolve_absent, resolve_write_target,
}

pub not-false : (b : Bool) → not b ≡ false → b ≡ true
not-false true h = refl
not-false false h = cc

starts_with-join :
    (path base : FilePath) (name : String)
    → starts_with path base ≡ true
    → starts_with (join path name) base ≡ true
unfolding starts_with join
starts_with-join path [] name h = refl
starts_with-join [] (d ∷ base) name h = cc
starts_with-join (c ∷ path) (d ∷ base) name h = ground (arith, h, starts_with-join path base name)

module _ (ambient : Ambient) (workspace_root : FilePath) where
  -- Below the workspace's root, as the system resolves it.
  abbrev pub IsInside : FilePath → Type 0
  IsInside path =
      (root : FilePath) × (ambient.canonicalize workspace_root ≡ ok root)
      × (starts_with path root ≡ true)

  -- The test that the path is in the workspace was passed.
  passed-inside :
      (path root result : FilePath) (next : Result FilePath String)
      → (fail_if (not (starts_with path root)) "requested path escapes the workspace" >> next)
        ≡ ok result
      → (starts_with path root ≡ true) × (next ≡ ok result)
  passed-inside path root result next h =
      let (u, p, q) =
        bind-ok (fail_if (not (starts_with path root)) "requested path escapes the workspace")
          (λ u. next) result h in
      (not-false (starts_with path root) (fail_if-ok (not (starts_with path root)) _ u p), q)

  -- The canonical path of a candidate, once it is found inside.
  resolved-inside :
      (message : String) (candidate root result : FilePath)
      (next : FilePath → Result FilePath String)
      → (map_err (λ error. message <> error) (ambient.canonicalize candidate) >>= λ found.
          fail_if (not (starts_with found root)) "requested path escapes the workspace"
          >> next found)
        ≡ ok result
      → (found : FilePath) × (starts_with found root ≡ true) × (next found ≡ ok result)
  resolved-inside message candidate root result next h =
      let (found, p, h1) =
        bind-ok (map_err (λ error. message <> error) (ambient.canonicalize candidate)) _ result h in
      let (inside, h2) = passed-inside found root result (next found) h1 in (found, inside, h2)

  same-inside :
      (found path root : FilePath)
      → starts_with found root ≡ true
      → ◌≡◌ {A = Result FilePath String} (ok found) (ok path)
      → starts_with path root ≡ true
  same-inside found path root h e = let same : found ≡ path = ground (arith, e) in rw (← same) h

  -- The path that a request to read is allowed for is in the workspace, links followed.
  pub resolve_existing_path-IsInside :
      (requested_path path : FilePath)
      → resolve_existing_path ambient workspace_root requested_path ≡ ok path
      → IsInside path
  unfolding resolve_existing_path
  resolve_existing_path-IsInside requested_path path h =
      let (candidate, p, h1) =
        bind-ok (validate_relative_path workspace_root requested_path) _ path h in
      let (root, q, h2) =
        bind-ok
          (map_err (λ error. "failed to resolve workspace root: " <> error)
            (ambient.canonicalize workspace_root))
          _ path h1 in
      let (found, inside, e) =
        resolved-inside "failed to resolve requested path: " candidate root path (λ found. ok found)
          h2 in
      (
        root,
        map_err-ok _ (ambient.canonicalize workspace_root) root q,
        same-inside found path root inside e,
      )

  resolve_present-inside :
      (candidate root path : FilePath)
      → resolve_present ambient workspace_root candidate root ≡ ok path
      → starts_with path root ≡ true
  unfolding resolve_present
  resolve_present-inside candidate root path h =
      let (found, inside, h1) =
        resolved-inside "failed to resolve requested path: " candidate root path
          (λ found.
            fail_if (not (ambient.is_file found)) "write target must be a regular file" >> ok found)
          h in
      let (u, p, e) =
        bind-ok (fail_if (not (ambient.is_file found)) "write target must be a regular file")
          (λ u. ok found) path h1 in
      same-inside found path root inside e

  resolve_absent-inside :
      (candidate root path : FilePath)
      → resolve_absent ambient workspace_root candidate root ≡ ok path
      → starts_with path root ≡ true
  unfolding resolve_absent
  resolve_absent-inside candidate root path h =
      let (above, p, h1) =
        bind-ok (ok_or (parent candidate) "write target must have a parent directory") _ path h in
      let (found, inside, h2) =
        resolved-inside "failed to resolve write target parent: " above root path
          (λ found. ok_or (file_name candidate) "write target must include a file name" >>= λ name.
            ok (join found name))
          h1 in
      let (name, q, e) =
        bind-ok (ok_or (file_name candidate) "write target must include a file name") _ path h2 in
      same-inside (join found name) path root (starts_with-join found root name inside) e

  branch-inside :
      (test : Bool) (yes_case no_case : Result FilePath String) (path root : FilePath)
      → (yes_case ≡ ok path → starts_with path root ≡ true)
      → (no_case ≡ ok path → starts_with path root ≡ true)
      → (if test then yes_case else no_case) ≡ ok path
      → starts_with path root ≡ true
  branch-inside true yes_case no_case path root f g h = f h
  branch-inside false yes_case no_case path root f g h = g h

  -- The path that a request to write is reviewed for is in the workspace, links followed, whether
  -- the target exists or is to be created.
  pub resolve_write_target-IsInside :
      (requested_path path : FilePath)
      → resolve_write_target ambient workspace_root requested_path ≡ ok path
      → IsInside path
  unfolding resolve_write_target
  resolve_write_target-IsInside requested_path path h =
      let (candidate, p, h1) =
        bind-ok (validate_relative_path workspace_root requested_path) _ path h in
      let (root, q, h2) =
        bind-ok
          (map_err (λ error. "failed to resolve workspace root: " <> error)
            (ambient.canonicalize workspace_root))
          _ path h1 in
      let known = map_err-ok _ (ambient.canonicalize workspace_root) root q in
      (
        root,
        known,
        branch-inside (ambient.symlink_metadata_is_ok candidate)
            (resolve_present ambient workspace_root candidate root)
            (resolve_absent ambient workspace_root candidate root) path root
            (resolve_present-inside candidate root path) (resolve_absent-inside candidate root path)
            h2,
      )
