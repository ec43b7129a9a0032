-- ===== src/Workspace/Fingerprint.antt =====
-- src/workspace_fingerprint.rs: the hash of the files that `cargo test` depends on. The workspace
-- is one reading: it does not change between the listing of a file and its reading, so that the
-- second `symlink_metadata` of a file answers what the first one did.
pub mod Unordered
pub mod Injective
use zyguor_agent_execution_g.Base.{
  ℕ, zero, suc, ◌/◌, ◌%◌, String, ◌<>◌, Option, none, some, List, [], ◌∷◌, ◌++◌, Result, ok, err,
  map_ok, map_err, ◌>>=◌, ltb, if◌then◌else◌, ◌≡◌, refl, Bool,
}
use Prim.Native.String as Text
use zyguor_agent_execution_g.Base.Lists.{length}
use zyguor_agent_execution_g.Base.Sorting.{sort_by}
use zyguor_agent_execution_g.Workspace.{
  Bytes, Node, file, directory, unlisted, symbolic_link, other, uninspected, Entries, end, entry,
  failed, Root, RelativePath, display,
}
use zyguor_agent_execution_g.Workspace.Order.{path_leb}

abbrev pub root_files : List String
root_files = "Cargo.toml" ∷ "Cargo.lock" ∷ "build.rs" ∷ []

abbrev pub source_directories : List String
source_directories = "src" ∷ "tests" ∷ []

-- A collected file: its path in the workspace, and what `fs::read` answers for it.
abbrev pub Found : Type 0
Found = RelativePath × Result Bytes String

-- `u64::to_le_bytes` is `le_bytes 8`.
unfoldable pub le_bytes : ℕ → ℕ → Bytes
le_bytes zero n = []
le_bytes (suc width) n = n % 256 ∷ le_bytes width (n / 256)

-- What a step finds is put behind what was found before it.
abbrev pub followed_by :
    Result (List Found) String → Result (List Found) String → Result (List Found) String
followed_by first next = first >>= λ found. map_ok (λ others. found ++ others) next

-- The workspace's path as it is displayed, and how UTF-8 writes a string.
module _ (workspace : String) (utf8 : String → Bytes) where
  -- `collect_files` on the entries of a directory, one by one.
  unfoldable mutual
    pub collect_node : RelativePath → Node → Result (List Found) String
    collect_node path (file contents) = ok ((path, contents) ∷ [])
    collect_node path (directory entries) = collect_files path entries
    collect_node path (unlisted error) =
        err ("failed to read workspace directory '" <> display path <> "': " <> error)
    collect_node path symbolic_link =
        err ("fingerprinted workspace entry must not be a symbolic link: " <> display path)
    collect_node path other = ok []
    collect_node path (uninspected error) = err (
        "failed to inspect workspace entry '" <> workspace <> "/" <> display path <> "': " <> error)

    pub collect_files : RelativePath → Entries → Result (List Found) String
    collect_files path end = ok []
    collect_files path (failed error) = err ("failed to read workspace directory entry: " <> error)
    collect_files path (entry name node rest) =
        followed_by (collect_node (path ++ (name ∷ [])) node) (collect_files path rest)

  -- One turn of the first loop.
  unfoldable pub root_file : String → Option Node → Result (List Found) String
  root_file name none = ok []
  root_file name (some (file contents)) = ok ((name ∷ [], contents) ∷ [])
  root_file name (some symbolic_link) =
      err ("fingerprinted workspace file must not be a symbolic link: " <> name)
  root_file name (some (uninspected error)) =
      err ("failed to inspect workspace file '" <> name <> "': " <> error)
  root_file name (some (directory entries)) = ok []
  root_file name (some (unlisted error)) = ok []
  root_file name (some other) = ok []

  -- One turn of the second loop.
  unfoldable pub source_directory : String → Option Node → Result (List Found) String
  unfolding collect_node
  source_directory name none = ok []
  source_directory name (some (file contents)) = ok []
  source_directory name (some other) = ok []
  source_directory name (some symbolic_link) =
      err ("fingerprinted workspace directory must not be a symbolic link: " <> name)
  source_directory name (some (uninspected error)) =
      err ("failed to inspect workspace directory '" <> name <> "': " <> error)
  source_directory name (some (directory entries)) = collect_node (name ∷ []) (directory entries)
  source_directory name (some (unlisted error)) = collect_node (name ∷ []) (unlisted error)

  -- A loop over names.
  unfoldable pub gather :
      (String → Option Node → Result (List Found) String)
      → Root
      → List String
      → Result (List Found) String
  gather turn root [] = ok []
  gather turn root (name ∷ names) = followed_by (turn name (root name)) (gather turn root names)

  unfoldable pub collect_workspace : Root → Result (List Found) String
  unfolding root_file source_directory gather
  collect_workspace root =
      followed_by (gather root_file root root_files)
        (gather source_directory root source_directories)

  unfoldable pub found_leb : Found → Found → Bool
  found_leb left right = path_leb left.0 right.0

  -- What the hasher is fed for one file.
  unfoldable pub file_record : RelativePath → Bytes → Bytes
  unfolding le_bytes
  file_record path contents =
      le_bytes 8 (length (utf8 (display path)))
      ++ (utf8 (display path) ++ (le_bytes 8 (length contents) ++ contents))

  -- The last loop.
  unfoldable pub hash_input : List Found → Result Bytes String
  unfolding file_record
  hash_input [] = ok []
  hash_input ((path, contents) ∷ rest) =
      map_err (λ error. "failed to read fingerprinted file '" <> display path <> "': " <> error)
        contents
      >>= λ bytes. map_ok (λ others. file_record path bytes ++ others) (hash_input rest)

  -- The bytes that are hashed.
  unfoldable pub fingerprint_input : Root → Result Bytes String
  unfolding collect_workspace hash_input
  fingerprint_input root = collect_workspace root >>= λ files. hash_input (sort_by found_leb files)

-- A digit of `{:02x}`.
unfoldable hex_digit : ℕ → String
hex_digit digit = Text.◌∷◌ (Text.char_at "0123456789abcdef" digit) Text.[]

unfoldable pub hex : Bytes → String
unfolding hex_digit
hex [] = ""
hex (byte ∷ bytes) = hex_digit (byte / 16) <> hex_digit (byte % 16) <> hex bytes

-- `Sha256` is a parameter.
unfoldable pub compute_workspace_fingerprint :
    String → (utf8 : String → Bytes) → (sha256 : Bytes → Bytes) → Root → Result String String
unfolding fingerprint_input hex
compute_workspace_fingerprint workspace utf8 sha256 root =
    map_ok (λ input. hex (sha256 input)) (fingerprint_input workspace utf8 root)

hexes : hex (0x5a ∷ 0x0f ∷ []) ≡ "5a0f"
unfolding hex
hexes = refl
