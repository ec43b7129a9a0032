-- ===== src/PendingReview/Commit.antt =====
-- What a save does to the state file: nothing before the commit, everything from it on.
use zyguor_agent_execution_g.Base.{
  String, ◌≡◌, refl, inl, inr, Option, none, some, Result, ok, err, arith, Bool-cases,
}
use zyguor_agent_execution_g.Base.Paths.{FilePath, file_name}
use zyguor_agent_execution_g.Base.Text.{has_nul}
use zyguor_agent_execution_g.PendingReview.State.{Serde, Reviews, serialize_state}
use zyguor_agent_execution_g.PendingReview.Disk.{
  before_commit, after_commit, Disk, SaveIo, Saved, commit, write_and_rename, clean_up, save_named,
  save_serialized, save_to_anchored_path_classified,
}

-- Up to the commit the state file is as it was; from it on it holds the new text.
abbrev Replaces : String → Disk → Saved → Type 0
Replaces text disk (ok u, disk') = disk'.state_file ≡ some text
Replaces text disk (err (after_commit m), disk') = disk'.state_file ≡ some text
Replaces text disk (err (before_commit m), disk') = disk'.state_file ≡ disk.state_file

commit-Replaces :
    (io : SaveIo) (text : String) (disk : Disk) → Replaces text disk (commit io text disk)
unfolding commit
commit-Replaces io text disk = ground arith

write-Replaces :
    (io : SaveIo) (text : String) (disk : Disk) → Replaces text disk (write_and_rename io text disk)
unfolding write_and_rename
write-Replaces io text disk = ground arith

clean_up-Replaces :
    (io : SaveIo) (text : String) (disk : Disk) (saved : Saved)
    → Replaces text disk saved
    → Replaces text disk (clean_up io saved)
unfolding clean_up
clean_up-Replaces io text disk (ok u, disk') h = h
clean_up-Replaces io text disk (err (before_commit m), disk') h = ground arith
clean_up-Replaces io text disk (err (after_commit m), disk') h = ground arith

-- The same, where the new text is that of a store.
abbrev pub Saves : Serde → Reviews → Disk → Saved → Type 0
Saves json s disk (ok u, disk') =
    (text : String) × (serialize_state json s ≡ ok text) × (disk'.state_file ≡ some text)
Saves json s disk (err (after_commit m), disk') =
    (text : String) × (serialize_state json s ≡ ok text) × (disk'.state_file ≡ some text)
Saves json s disk (err (before_commit m), disk') = disk'.state_file ≡ disk.state_file

Replaces-Saves :
    (json : Serde) (s : Reviews) (text : String) (disk : Disk) (saved : Saved)
    → serialize_state json s ≡ ok text
    → Replaces text disk saved
    → Saves json s disk saved
Replaces-Saves json s text disk (ok u, disk') e h = (text, e, h)
Replaces-Saves json s text disk (err (after_commit m), disk') e h = (text, e, h)
Replaces-Saves json s text disk (err (before_commit m), disk') e h = h

named-Replaces :
    (io : SaveIo) (text : String) (disk : Disk) (name : Option String)
    → Replaces text disk (save_named io text disk name)
unfolding save_named
named-Replaces io text disk none = refl
named-Replaces io text disk (some name) = elim (Bool-cases (has_nul name)) [
  | inl bad ↦ rw bad refl
  | inr fine ↦ rw fine (clean_up-Replaces io text disk _ (write-Replaces io text disk))
]

serialized-Saves :
    (json : Serde) (io : SaveIo) (s : Reviews) (path : FilePath) (disk : Disk)
    (r : Result String String)
    → serialize_state json s ≡ r
    → Saves json s disk (save_serialized io path disk r)
unfolding save_serialized
serialized-Saves json io s path disk (err error) p = refl
serialized-Saves json io s path disk (ok text) p =
    Replaces-Saves json s text disk _ p (named-Replaces io text disk (file_name path))

-- A save that fails before its commit leaves the state file as it was; one that succeeds, or
-- fails after it, leaves the text of exactly the store that was saved.
pub save-Saves :
    (json : Serde) (io : SaveIo) (s : Reviews) (path : FilePath) (disk : Disk)
    → Saves json s disk (save_to_anchored_path_classified json io s path disk)
unfolding save_to_anchored_path_classified
save-Saves json io s path disk = serialized-Saves json io s path disk (serialize_state json s) refl
