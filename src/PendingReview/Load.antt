-- ===== src/PendingReview/Load.antt =====
-- `load_from_path_with_parent_identity`: the store that the gateway starts with.
use zyguor_agent_execution_g.Base.{
  ℕ, String, ◌<>◌, Bool, not, ◌||◌, Option, none, some, Result, ok, err, ◌>>=◌, ◌>>◌, fail_if,
  map_err, ok_or, nat_beq,
}
use zyguor_agent_execution_g.Base.Paths.{FilePath, file_name, parent, join}
use zyguor_agent_execution_g.Base.Text.{has_nul, to_string}
use zyguor_agent_execution_g.PendingReview.State.{Serde, Reviews, empty, from_serialized_state}
use zyguor_agent_execution_g.PendingReview.Store.{PendingReviewStore}

-- `metadata` of an open directory.
pub record DirMetadata : Type 0 where
  pub is_dir : Bool
  pub device : ℕ
  pub inode : ℕ

-- What `openat` of the state file finds.
pub data OpenedFile : Type 0 where
  opened : (is_file : Result Bool String) → (contents : Result String String) → OpenedFile
  not_found symbolic_link : OpenedFile
  open_failed : String → OpenedFile

-- The answers of the operating system while a store is loaded; a path is displayed by `display`.
pub record LoadIo : Type 0 where
  pub canonicalize : FilePath → Result FilePath String
  pub open_parent : Result ℕ String
  pub parent_metadata : Result DirMetadata String
  pub open_file : OpenedFile
  pub display : FilePath → String

-- The test on the identity of the parent directory, if one is expected.
unfoldable pub check_identity : Option (ℕ × ℕ) → DirMetadata → Result (Unit {0}) String
check_identity none metadata = ok tt
check_identity (some (expected_device, expected_inode)) metadata =
    fail_if
      (not (nat_beq metadata.device expected_device) || not (nat_beq metadata.inode expected_inode))
      ("pending review state parent directory changed after validation: expected device "
        <> to_string expected_device
        <> " inode "
        <> to_string expected_inode
        <> ", found device "
        <> to_string metadata.device
        <> " inode "
        <> to_string metadata.inode)

module _ (json : Serde) (io : LoadIo) where
  unfoldable pub load_file : FilePath → OpenedFile → Result Reviews String
  load_file path (opened is_file contents) = do
    regular ←
        map_err
          (λ error.
            "failed to inspect opened pending review state file '"
            <> io.display path
            <> "': "
            <> error)
          is_file
    fail_if (not regular) "pending review state file must be a regular file"
    text ←
        map_err
          (λ error.
            "failed to read pending review state file '" <> io.display path <> "': " <> error)
          contents
    from_serialized_state json text
  load_file path not_found = ok empty
  load_file path symbolic_link = err "pending review state file must not be a symbolic link"
  load_file path (open_failed error) =
      err ("failed to open pending review state file '" <> io.display path <> "': " <> error)

  unfoldable pub load_from_path_with_parent_identity :
      FilePath → Option (ℕ × ℕ) → Result PendingReviewStore String
  unfolding load_file check_identity
  load_from_path_with_parent_identity path expected_parent_identity = do
    directory ← ok_or (parent path) "pending review state path must have a parent directory"
    name ← ok_or (file_name path) "pending review state path must include a file name"
    canonical_parent ←
        map_err
          (λ error.
            "failed to resolve pending review state parent '"
            <> io.display directory
            <> "': "
            <> error)
          (io.canonicalize directory)
    parent_directory ←
        map_err
          (λ error.
            "failed to open pending review state parent directory '"
            <> io.display canonical_parent
            <> "': "
            <> error)
          io.open_parent
    metadata ←
        map_err
          (λ error.
            "failed to inspect pending review state parent directory '"
            <> io.display canonical_parent
            <> "': "
            <> error)
          io.parent_metadata
    fail_if (not metadata.is_dir) "pending review state parent must be a directory"
    check_identity expected_parent_identity metadata
    fail_if (has_nul name) "pending review state file name contains an invalid NUL byte"
    maps ← load_file path io.open_file
    ok (record {
      maps = maps;
      persistence_path = some (join canonical_parent name);
      persistence_parent = some parent_directory;
    })

  unfoldable pub load_from_validated_path : FilePath → ℕ → ℕ → Result PendingReviewStore String
  load_from_validated_path path expected_parent_device expected_parent_inode =
      load_from_path_with_parent_identity path
        (some (expected_parent_device, expected_parent_inode))
