-- ===== src/Files/Resolve.antt =====
-- `resolve_existing_path` and `resolve_write_target`.
use zyguor_agent_execution_g.Base.{
  String, ◌<>◌, Bool, not, Result, ok, fail_if, map_err, ok_or, if◌then◌else◌, ◌>>=◌, ◌>>◌,
}
use zyguor_agent_execution_g.Base.Paths.{FilePath, parent, file_name, join, starts_with}
use zyguor_agent_execution_g.Files.{validate_relative_path}

-- What the system answers of a path, links followed but by `symlink_metadata`.
pub record Ambient : Type 0 where
  pub canonicalize : FilePath → Result FilePath String
  pub symlink_metadata_is_ok : FilePath → Bool
  pub is_file : FilePath → Bool

module _ (ambient : Ambient) (workspace_root : FilePath) where
  unfoldable pub resolve_existing_path : FilePath → Result FilePath String
  unfolding validate_relative_path
  resolve_existing_path requested_path = do
    candidate ← validate_relative_path workspace_root requested_path
    canonical_root ←
        map_err (λ error. "failed to resolve workspace root: " <> error)
          (ambient.canonicalize workspace_root)
    canonical_candidate ←
        map_err (λ error. "failed to resolve requested path: " <> error)
          (ambient.canonicalize candidate)
    fail_if (not (starts_with canonical_candidate canonical_root))
        "requested path escapes the workspace"
    ok canonical_candidate

  -- A target that exists.
  unfoldable pub resolve_present : FilePath → FilePath → Result FilePath String
  resolve_present candidate canonical_root = do
    canonical_candidate ←
        map_err (λ error. "failed to resolve requested path: " <> error)
          (ambient.canonicalize candidate)
    fail_if (not (starts_with canonical_candidate canonical_root))
        "requested path escapes the workspace"
    fail_if (not (ambient.is_file canonical_candidate)) "write target must be a regular file"
    ok canonical_candidate

  -- A target that is to be created.
  unfoldable pub resolve_absent : FilePath → FilePath → Result FilePath String
  resolve_absent candidate canonical_root = do
    above ← ok_or (parent candidate) "write target must have a parent directory"
    canonical_parent ←
        map_err (λ error. "failed to resolve write target parent: " <> error)
          (ambient.canonicalize above)
    fail_if (not (starts_with canonical_parent canonical_root))
        "requested path escapes the workspace"
    name ← ok_or (file_name candidate) "write target must include a file name"
    ok (join canonical_parent name)

  unfoldable pub resolve_write_target : FilePath → Result FilePath String
  unfolding validate_relative_path resolve_present resolve_absent
  resolve_write_target requested_path = do
    candidate ← validate_relative_path workspace_root requested_path
    canonical_root ←
        map_err (λ error. "failed to resolve workspace root: " <> error)
          (ambient.canonicalize workspace_root)
    (if ambient.symlink_metadata_is_ok candidate
        then resolve_present candidate canonical_root
        else resolve_absent candidate canonical_root)
