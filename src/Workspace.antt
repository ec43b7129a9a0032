-- ===== src/Workspace.antt =====
-- The agent's workspace as one reading of it finds it: src/workspace_fingerprint.rs and
-- src/workspace_snapshot.rs walk over it.
pub mod Order
pub mod Fingerprint
pub mod Snapshot
pub mod Listing
pub mod Distinct
pub mod Copied
pub mod Named
pub mod Turns
pub mod Approved
use zyguor_agent_execution_g.Base.{ℕ, String, ◌<>◌, Option, List, [], ◌∷◌, Result}

-- The contents of a file are its bytes.
abbrev pub Bytes : Type 0
Bytes = List ℕ

-- What `symlink_metadata` tells of an entry, and what reading it gives: a file has its contents or
-- the error of reading it; a directory that `read_dir` does not list has the error; `other` is a
-- socket, a pipe or a device; `uninspected` has the error of `symlink_metadata` itself. The
-- entries stand in the order of `read_dir`, whose iteration fails at `failed`.
mutual
  pub data Node : Type 0 where
    file : Result Bytes String → Node
    directory : Entries → Node
    unlisted : String → Node
    symbolic_link other : Node
    uninspected : String → Node

  pub data Entries : Type 0 where
    end : Entries
    entry : String → Node → Entries → Entries
    failed : String → Entries

-- The workspace's root, by name; none is `NotFound`.
abbrev pub Root : Type 0
Root = String → Option Node

-- A path relative to the workspace.
abbrev pub RelativePath : Type 0
RelativePath = List String

-- `display` of a relative path.
unfoldable pub display : RelativePath → String
display [] = ""
display (name ∷ []) = name
display (name ∷ next ∷ rest) = name <> "/" <> display (next ∷ rest)
