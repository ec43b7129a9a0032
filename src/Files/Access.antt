-- ===== src/Files/Access.antt =====
-- The operations through the anchored directory: `revalidate_write_target`,
-- `capture_write_target_state`, `write_text_file` and `read_text_file`.
use zyguor_agent_execution_g.Base.{
  ℕ, String, ◌<>◌, ◌*◌, ◌+◌, Bool, true, false, not, Option, none, some, [], ◌∷◌, Result, ok, err,
  fail_if, map_err, ok_or, if◌then◌else◌, ◌>>=◌, ◌>>◌, len, ltb,
}
use zyguor_agent_execution_g.Base.Lists.{length, take}
use zyguor_agent_execution_g.Base.Text.{to_string}
use zyguor_agent_execution_g.Base.Paths.{FilePath, parent, file_name}
use zyguor_agent_execution_g.PendingReview.{WriteTargetState, missing, existing}
use zyguor_agent_execution_g.Workspace.{Bytes}
use zyguor_agent_execution_g.Workspace.Fingerprint.{hex}
use zyguor_agent_execution_g.Files.{check_relative}

abbrev pub max_read_bytes : ℕ
max_read_bytes = 1024 * 1024

abbrev pub max_write_bytes : ℕ
max_write_bytes = 1024 * 1024

-- What stands at the requested path: a file with its contents and permissions, a symbolic link,
-- or anything else.
pub data Target : Type 0 where
  regular : (contents : Bytes) → (permissions : ℕ) → Target
  link irregular : Target

-- The anchored directory as one request sees it: its entry at the requested path, none where
-- nothing is, and the temporary file of a write.
pub record Place : Type 0 where
  pub target : Option Target
  pub temporary_file : Option (Bytes × ℕ)

-- The answers of the system calls of one operation: an error to display, or none. `written` is
-- what a write that fails leaves, and `created_permissions` are those of a new file.
pub record Calls : Type 0 where
  pub open_parent : Option String
  pub inspect : Option String
  pub inspect_again : Option String
  pub create_error : Option String
  pub created_permissions : ℕ
  pub set_permissions_error : Option String
  pub write_error : Option String
  pub written : Bytes
  pub sync_error : Option String
  pub rename_error : Option String
  pub remove_error : Option String
  pub open_error : Option String
  pub read_error : Option String

abbrev pub called : String → Option String → Result (Unit {0}) String
called message none = ok tt
called message (some error) = err (message <> error)

-- The tests on the metadata of what is there.
unfoldable pub check_kind :
    (link_message irregular_message : String) → Target → Result (Unit {0}) String
check_kind link_message irregular_message (regular contents permissions) = ok tt
check_kind link_message irregular_message link = err link_message
check_kind link_message irregular_message irregular = err irregular_message

unfoldable pub check_writable : Option Target → Result (Unit {0}) String
unfolding check_kind
check_writable none = ok tt
check_writable (some target) =
    check_kind "write target must not be a symbolic link" "write target must be a regular file"
      target

abbrev pub is_empty_path : FilePath → Bool
is_empty_path [] = true
is_empty_path (c ∷ path) = false

-- `anchored` says that the capability has its directory, `workspace_dir`.
module _ (anchored : Bool) (calls : Calls) where
  unfoldable pub revalidate_write_target : FilePath → Place → Result (Unit {0}) String
  unfolding check_relative check_writable
  revalidate_write_target path place = do
    check_relative path
    above ← ok_or (parent path) "write target must have a parent directory"
    fail_if (not anchored) "write revalidation requires an anchored workspace capability"
    (if is_empty_path above
        then ok tt
        else called "failed to revalidate write target parent: " calls.open_parent)
    called "failed to revalidate existing write target: " calls.inspect
    check_writable place.target

  -- The loop feeds the hasher all that the file holds, or fails.
  unfoldable pub hash_target : (Bytes → Bytes) → Option Target → Result WriteTargetState String
  unfolding hex
  hash_target sha256 none = ok missing
  hash_target sha256 (some (regular contents permissions)) = do
    called "failed to open write target for fingerprinting: " calls.open_error
    called "failed to read write target for fingerprinting: " calls.read_error
    ok (existing (hex (sha256 contents)))
  hash_target sha256 (some link) = err "write target must not be a symbolic link"
  hash_target sha256 (some irregular) = err "write target must be a regular file"

  unfoldable pub capture_write_target_state :
      (Bytes → Bytes) → FilePath → Place → Result WriteTargetState String
  unfolding revalidate_write_target hash_target
  capture_write_target_state sha256 path place = do
    revalidate_write_target path place
    called "failed to inspect write target state: " calls.inspect_again
    hash_target sha256 place.target

  abbrev pub Wrote : Type 0
  Wrote = Result (Unit {0}) String × Place

  abbrev pub permissions_of : Option Target → Option ℕ
  permissions_of (some (regular contents permissions)) = some permissions
  permissions_of _ = none

  -- The closure `write_result`, from the rename on.
  unfoldable pub replace_target : Bytes → ℕ → Place → Option String → Wrote
  replace_target contents permissions place (some error) =
      (err ("failed to atomically replace requested file: " <> error), place)
  replace_target contents permissions place none =
      (ok tt, record { target = some (regular contents permissions); temporary_file = none })

  -- From the sync on.
  unfoldable pub sync_temporary : Bytes → ℕ → Place → Option String → Wrote
  unfolding replace_target
  sync_temporary contents permissions place (some error) =
      (err ("failed to sync temporary file: " <> error), place)
  sync_temporary contents permissions place none =
      replace_target contents permissions place calls.rename_error

  -- From the write on.
  unfoldable pub write_temporary : Bytes → ℕ → Place → Option String → Wrote
  unfolding sync_temporary
  write_temporary contents permissions place (some error) = (
    err ("failed to write temporary file: " <> error),
    record { target = place.target; temporary_file = some (calls.written, permissions) },
  )
  write_temporary contents permissions place none =
      sync_temporary contents permissions
        (record { target = place.target; temporary_file = some (contents, permissions) })
        calls.sync_error

  -- From the permissions on, where the target had some.
  unfoldable pub keep_permissions : Bytes → Option ℕ → Place → Option String → Wrote
  unfolding write_temporary
  keep_permissions contents none place failure =
      write_temporary contents calls.created_permissions place calls.write_error
  keep_permissions contents (some permissions) place (some error) =
      (err ("failed to preserve existing file permissions: " <> error), place)
  keep_permissions contents (some permissions) place none =
      write_temporary contents permissions place calls.write_error

  unfoldable pub write_and_replace : Bytes → Option ℕ → Place → Option String → Wrote
  unfolding keep_permissions
  write_and_replace contents permissions place (some error) =
      (err ("failed to create temporary write file: " <> error), place)
  write_and_replace contents permissions place none =
      keep_permissions contents permissions
        (record { target = place.target; temporary_file = some ([], calls.created_permissions) })
        calls.set_permissions_error

  -- The removal of the temporary file after a failure.
  unfoldable pub remove_temporary : Wrote → Wrote
  remove_temporary (ok u, place) = (ok u, place)
  remove_temporary (err error, place) = elim calls.remove_error [
    | some remove_error ↦ (err error, place)
    | none ↦ (err error, record { target = place.target; temporary_file = none })
  ]

  -- The tests before anything is written.
  unfoldable pub check_write : FilePath → String → Place → Result (Unit {0}) String
  unfolding revalidate_write_target
  check_write path content place = do
    fail_if (ltb max_write_bytes (len content))
        ("write content exceeds maximum size of " <> to_string max_write_bytes <> " bytes")
    check_relative path
    ok_or (file_name path) "write target must include a file name"
    fail_if (not anchored) "secure write requires an anchored workspace capability"
    revalidate_write_target path place
    called "failed to read existing write target metadata: " calls.inspect_again

  unfoldable pub write_checked : Bytes → Place → Result (Unit {0}) String → Wrote
  unfolding write_and_replace remove_temporary
  write_checked contents place (err error) = (err error, place)
  write_checked contents place (ok u) =
      remove_temporary
        (write_and_replace contents (permissions_of place.target) place calls.create_error)

  unfoldable pub write_text_file : (utf8 : String → Bytes) → FilePath → String → Place → Wrote
  unfolding check_write write_checked
  write_text_file utf8 path content place =
      write_checked (utf8 content) place (check_write path content place)

  -- From the open on: at most one byte more than the maximum is read.
  unfoldable pub read_target :
      (from_utf8 : Bytes → Result String String) → Target → Result String String
  unfolding check_kind
  read_target from_utf8 (regular contents permissions) = do
    called "failed to open requested file: " calls.open_error
    called "failed to read requested file: " calls.read_error
    let buffer = take (max_read_bytes + 1) contents
    fail_if (ltb max_read_bytes (length buffer))
        ("requested file exceeds maximum read size of " <> to_string max_read_bytes <> " bytes")
    map_err (λ error. "requested file is not valid UTF-8: " <> error) (from_utf8 buffer)
  read_target from_utf8 link = err "read target must not be a symbolic link"
  read_target from_utf8 irregular = err "read target must be a regular file"

  unfoldable pub read_text_file :
      (from_utf8 : Bytes → Result String String)
      → (not_found : String) → FilePath
      → Place
      → Result String String
  unfolding check_relative read_target
  read_text_file from_utf8 not_found path place = do
    check_relative path
    fail_if (not anchored) "file read requires an anchored workspace capability"
    above ← ok_or (parent path) "read target must have a parent directory"
    (if is_empty_path above
        then ok tt
        else called "failed to validate read target parent: " calls.open_parent)
    called "failed to inspect requested file: " calls.inspect
    target ← ok_or place.target ("failed to inspect requested file: " <> not_found)
    read_target from_utf8 target
