-- ===== src/Workspace/Snapshot.antt =====
-- src/workspace_snapshot.rs: the copy of the files that `cargo test` depends on. The workspace is
-- one reading, and the copy is what the new directory holds afterwards.
use zyguor_agent_execution_g.Base.{
  String, ◌<>◌, Option, none, some, List, [], ◌∷◌, ◌++◌, Result, ok, err, map_ok, map_err, ◌>>=◌,
  ◌==◌, string_eq, if◌then◌else◌,
}
use zyguor_agent_execution_g.Workspace.{
  Bytes, Node, file, directory, unlisted, symbolic_link, other, uninspected, Entries, end, entry,
  failed, Root, RelativePath, display,
}
use zyguor_agent_execution_g.Workspace.Fingerprint.{root_files, source_directories}

-- What the system answers where the copy is made: its path as it is displayed, the error of
-- `create_dir` of the root and of a directory in it, and the error with which a `copy` of a
-- readable file fails, by its path in the workspace.
pub record Destination : Type 0 where
  pub path : String
  pub create_root : Option String
  pub create_dir : RelativePath → Option String
  pub copy : RelativePath → Option String

-- A call whose error is put under a message.
abbrev pub checked : String → Option String → Result (Unit {0}) String
checked message none = ok tt
checked message (some error) = err (message <> error)

abbrev pub put : String → Option Node → Entries → Entries
put name none rest = rest
put name (some node) rest = entry name node rest

module _ (workspace : String) (destination : Destination) where
  -- `fs::copy`, which reads the source first.
  unfoldable pub copy_file :
      (message : String) → RelativePath → Result Bytes String → Result (Option Node) String
  copy_file message path contents = map_err (λ error. message <> error) contents >>= λ bytes.
      map_ok (λ u. some (file (ok bytes))) (checked message (destination.copy path))

  -- One turn of the loop of `copy_directory`; an entry that is no file and no directory is left
  -- out.
  unfoldable mutual
    unfolding copy_file

    pub copy_entry : RelativePath → Node → Result (Option Node) String
    copy_entry path (file contents) =
        copy_file ("failed to copy workspace file '" <> workspace <> "/" <> display path <> "': ")
          path contents
    copy_entry path (directory entries) =
        let copied = copy_directory path entries in
        checked
          ("failed to create snapshot directory '"
            <> destination.path
            <> "/"
            <> display path
            <> "': ")
          (destination.create_dir path)
        >>= λ u. map_ok (λ entries'. some (directory entries')) copied
    copy_entry path (unlisted error) =
        checked
          ("failed to create snapshot directory '"
            <> destination.path
            <> "/"
            <> display path
            <> "': ")
          (destination.create_dir path)
        >>= λ u. err ("failed to read workspace directory '" <> display path <> "': " <> error)
    copy_entry path symbolic_link =
        err ("workspace snapshot entry must not be a symbolic link: " <> display path)
    copy_entry path other = ok none
    copy_entry path (uninspected error) = err (
        "failed to inspect workspace entry '" <> workspace <> "/" <> display path <> "': " <> error)

    pub copy_directory : RelativePath → Entries → Result Entries String
    copy_directory path end = ok end
    copy_directory path (failed error) = err ("failed to read workspace directory entry: " <> error)
    copy_directory path (entry name node rest) =
        let later = copy_directory path rest in
        copy_entry (path ++ (name ∷ [])) node >>= λ copied. map_ok (put name copied) later

  -- One turn of the first loop.
  unfoldable pub copy_root_file : String → Option Node → Result (Option Node) String
  unfolding copy_file
  copy_root_file name none = ok none
  copy_root_file name (some (file contents)) =
      copy_file ("failed to copy workspace file '" <> name <> "': ") (name ∷ []) contents
  copy_root_file name (some symbolic_link) =
      err ("workspace snapshot file must not be a symbolic link: " <> name)
  copy_root_file name (some (uninspected error)) =
      err ("failed to inspect workspace file '" <> name <> "': " <> error)
  copy_root_file name (some (directory entries)) = ok none
  copy_root_file name (some (unlisted error)) = ok none
  copy_root_file name (some other) = ok none

  -- One turn of the second loop.
  unfoldable pub copy_source_directory : String → Option Node → Result (Option Node) String
  unfolding copy_directory
  copy_source_directory name none = ok none
  copy_source_directory name (some (file contents)) = ok none
  copy_source_directory name (some other) = ok none
  copy_source_directory name (some symbolic_link) =
      err ("workspace snapshot directory must not be a symbolic link: " <> name)
  copy_source_directory name (some (uninspected error)) =
      err ("failed to inspect workspace directory '" <> name <> "': " <> error)
  copy_source_directory name (some (directory entries)) =
      checked ("failed to create snapshot directory '" <> name <> "': ")
        (destination.create_dir (name ∷ []))
      >>= λ u. map_ok (λ entries'. some (directory entries')) (copy_directory (name ∷ []) entries)
  copy_source_directory name (some (unlisted error)) =
      checked ("failed to create snapshot directory '" <> name <> "': ")
        (destination.create_dir (name ∷ []))
      >>= λ u. err ("failed to read workspace directory '" <> name <> "': " <> error)

  -- A loop over names.
  unfoldable pub copy_each :
      (String → Option Node → Result (Option Node) String)
      → Root
      → List String
      → Result Entries String
  copy_each turn root [] = ok end
  copy_each turn root (name ∷ names) =
      let later = copy_each turn root names in
      turn name (root name) >>= λ copied. map_ok (put name copied) later

  unfoldable pub copy_workspace_inputs : Root → Result (Entries × Entries) String
  unfolding copy_each copy_root_file copy_source_directory
  copy_workspace_inputs root = copy_each copy_root_file root root_files >>= λ files.
      map_ok (λ directories. (files, directories))
        (copy_each copy_source_directory root source_directories)

  -- `WorkspaceSnapshot::create`; the copy is removed when it cannot be completed.
  unfoldable pub create : Root → Result (Entries × Entries) String
  unfolding copy_workspace_inputs
  create root = checked "failed to create workspace snapshot: " destination.create_root >>= λ u.
      copy_workspace_inputs root

-- What stands under a name.
abbrev pub child : Entries → String → Option Node
child end name = none
child (failed error) name = none
child (entry a node rest) name =
    let later = child rest name in if a == name then some node else later

-- The new directory: the files and the directories of the root that were copied.
abbrev pub or_else : Option Node → Option Node → Option Node
or_else none o = o
or_else (some node) o = some node

abbrev pub snapshot_root : Entries × Entries → Root
snapshot_root copied name = or_else (child copied.0 name) (child copied.1 name)
