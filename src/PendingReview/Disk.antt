-- ===== src/PendingReview/Disk.antt =====
-- `save_to_anchored_path_classified`: the state file is replaced through a temporary file, and a
-- failure says on which side of the rename it fell.
use zyguor_agent_execution_g.Base.{String, ◌<>◌, Option, none, some, Result, ok, err, if◌then◌else◌}
use zyguor_agent_execution_g.Base.Paths.{FilePath, file_name}
use zyguor_agent_execution_g.Base.Text.{has_nul}
use zyguor_agent_execution_g.PendingReview.State.{Serde, Reviews, serialize_state}

pub data PersistenceFailure : Type 0 where
  before_commit after_commit : String → PersistenceFailure

-- `Display` of the failure.
abbrev pub display_failure : PersistenceFailure → String
display_failure (before_commit message) = message
display_failure (after_commit message) = message

-- The anchored directory, as far as the store writes it: the state file, and the temporary file
-- of a save that is under way or could not clean up. A temporary name is fresh at each save.
pub record Disk : Type 0 where
  pub state_file : Option String
  pub temporary_file : Option String

-- The answers of the system calls of one save: an error to display, or none. `written` is what
-- stands in the temporary file when the write fails.
pub record SaveIo : Type 0 where
  pub create_error : Option String
  pub write_error : Option String
  pub written : String
  pub sync_error : Option String
  pub rename_error : Option String
  pub parent_sync_error : Option String
  pub unlink_error : Option String

-- A run in which every call succeeds.
abbrev pub no_faults : SaveIo
no_faults = record {
  create_error = none;
  write_error = none;
  written = "";
  sync_error = none;
  rename_error = none;
  parent_sync_error = none;
  unlink_error = none;
}

abbrev pub Saved : Type 0
Saved = Result (Unit {0}) PersistenceFailure × Disk

-- From the rename on.
unfoldable pub commit : SaveIo → String → Disk → Saved
commit io serialized disk = elim io.rename_error [
  | some error ↦ (
    err (before_commit ("failed to atomically replace pending review state file: " <> error)),
    disk,
  )
  | none ↦
      let disk' : Disk = record { state_file = some serialized; temporary_file = none } in
      elim io.parent_sync_error [
        | some error ↦ (
          err (
              after_commit
                ("pending review state was replaced but parent directory sync failed: " <> error)),
          disk',
        )
        | none ↦ (ok tt, disk')
      ]
]

-- The closure `save_result`.
unfoldable pub write_and_rename : SaveIo → String → Disk → Saved
unfolding commit
write_and_rename io serialized disk = elim io.create_error [
  | some error ↦ (
    err (before_commit ("failed to create temporary pending review state file: " <> error)),
    disk,
  )
  | none ↦ elim io.write_error [
    | some error ↦ (
      err (before_commit ("failed to write pending review state file: " <> error)),
      record disk { temporary_file = some io.written },
    )
    | none ↦
        let disk' : Disk = record disk { temporary_file = some serialized } in
        elim io.sync_error [
          | some error ↦
              (err (before_commit ("failed to sync pending review state file: " <> error)), disk')
          | none ↦ commit io serialized disk'
        ]
  ]
]

-- `unlinkat` after a failed save; its own failure is not reported.
unfoldable pub clean_up : SaveIo → Saved → Saved
clean_up io (ok u, disk) = (ok u, disk)
clean_up io (err error, disk) = elim io.unlink_error [
  | some e ↦ (err error, disk)
  | none ↦ (err error, record disk { temporary_file = none })
]

-- From the file name of the path on. The temporary name holds no NUL byte: it is made of a `Uuid`
-- and two fixed parts.
unfoldable pub save_named : SaveIo → String → Disk → Option String → Saved
unfolding write_and_rename clean_up
save_named io serialized disk none =
    (err (before_commit "pending review state path must include a file name"), disk)
save_named io serialized disk (some name) =
    if has_nul name
    then (err (before_commit "pending review state file name contains an invalid NUL byte"), disk)
    else clean_up io (write_and_rename io serialized disk)

unfoldable pub save_serialized : SaveIo → FilePath → Disk → Result String String → Saved
unfolding save_named
save_serialized io path disk (err error) = (err (before_commit error), disk)
save_serialized io path disk (ok serialized) = save_named io serialized disk (file_name path)

unfoldable pub save_to_anchored_path_classified : Serde → SaveIo → Reviews → FilePath → Disk → Saved
unfolding save_serialized
save_to_anchored_path_classified json io store path disk =
    save_serialized io path disk (serialize_state json store)
