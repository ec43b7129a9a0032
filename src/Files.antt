-- ===== src/Files.antt =====
-- src/filesystem.rs: the paths that an agent may name, and the files behind them.
pub mod Resolve
pub mod Access
pub mod Confined
pub mod Written
pub mod Reread
use zyguor_agent_execution_g.Base.{
  ℕ, String, ◌<>◌, Bool, true, false, Option, none, some, List, [], ◌∷◌, ◌++◌, Result, ok, err,
  fail_if, ◌>>◌,
}
use zyguor_agent_execution_g.Base.Paths.{
  Component, root_dir, cur_dir, parent_dir, normal, FilePath, is_absolute,
}

-- The loop over `components` that every operation starts with.
unfoldable pub check_components : FilePath → Result (Unit {0}) String
check_components [] = ok tt
check_components (parent_dir ∷ rest) = err "parent directory traversal is not allowed"
check_components (root_dir ∷ rest) = err "path must remain inside the workspace"
check_components (cur_dir ∷ rest) = check_components rest
check_components (normal name ∷ rest) = check_components rest

-- The tests before it.
unfoldable pub check_relative : FilePath → Result (Unit {0}) String
unfolding check_components
check_relative path = do
  fail_if (is_absolute path) "absolute paths are not allowed"
  check_components path

-- `join` of a relative path; the components of the whole have no `.` but at their start.
unfoldable pub join_relative : FilePath → FilePath → FilePath
join_relative root (cur_dir ∷ path) = root ++ path
join_relative root path = root ++ path

unfoldable pub validate_relative_path :
    (workspace_root : FilePath) → FilePath → Result FilePath String
unfolding check_relative join_relative
validate_relative_path workspace_root path = do
  check_relative path
  ok (join_relative workspace_root path)
