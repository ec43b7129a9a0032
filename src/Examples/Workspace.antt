-- ===== src/Examples/Workspace.antt =====
-- The theorems on the workspace, on one with a manifest and two sources.
use mathlib.Core.Path.{subst}
use zyguor_agent_execution_g.Base.{
  String, ◌≡◌, refl, arith, inl, inr, ◌⊎◌, Bool-cases, ◌==◌, string_eq, Option, none, some, List,
  [], ◌∷◌, ◌++◌, map, Result, ok,
}
use Prim.Native.Char.{code}
use Prim.Native.String as Text
use text.Mathlib.TextEquality.{Char-path}
use zyguor_agent_execution_g.Base.Sorting.{sort_by}
use zyguor_agent_execution_g.Workspace.{
  Bytes, Node, file, directory, Entries, end, entry, failed, Root, display,
}
use zyguor_agent_execution_g.Workspace.Order.{path_leb}
use zyguor_agent_execution_g.Workspace.Fingerprint.{
  le_bytes, Found, found_leb, fingerprint_input, compute_workspace_fingerprint,
}
use zyguor_agent_execution_g.Workspace.Fingerprint.Unordered.{
  compute_workspace_fingerprint-IsRelisted,
}
use zyguor_agent_execution_g.Workspace.Fingerprint.Injective.{
  AreSized, told, fingerprint_input-injective,
}
use zyguor_agent_execution_g.Workspace.Listing.{unchanged, listed, exchanged, Alike, IsRelisted}
use zyguor_agent_execution_g.Workspace.Distinct.{IsDistinct, AreDistinct, HasDistinctNames}
use zyguor_agent_execution_g.Workspace.Snapshot.{Destination, create, child, or_else, snapshot_root}
use zyguor_agent_execution_g.Workspace.Approved.{create-compute_workspace_fingerprint}

-- An encoding that tells strings apart: one number for each character.
abbrev pub codes : String → Bytes
codes Text.[] = []
codes (Text.◌∷◌ c s) = code c ∷ codes s

pub ok-same :
    (a b : Entries × Entries) → ◌≡◌ {A = Result (Entries × Entries) String} (ok a) (ok b) → a ≡ b
ok-same a b h = ground (arith, h)

codes-injective : (s t : String) → codes s ≡ codes t → s ≡ t
codes-injective Text.[] Text.[] h = refl
codes-injective Text.[] (Text.◌∷◌ d t) h = cc
codes-injective (Text.◌∷◌ c s) Text.[] h = cc
codes-injective (Text.◌∷◌ c s) (Text.◌∷◌ d t) h =
    let heads : c ≡ d = Char-path c d (ground (arith, h)) in
    let tails : s ≡ t = codes-injective s t (ground (arith, h)) in rw (heads, tails) refl

abbrev pub digest : Bytes → Bytes
digest bytes = bytes

abbrev lib_file : Node
lib_file = file (ok (7 ∷ []))

abbrev main_file : Node
main_file = file (ok (8 ∷ 9 ∷ []))

abbrev sources : Entries
sources = entry "lib.rs" lib_file (entry "main.rs" main_file end)

abbrev sources_relisted : Entries
sources_relisted = entry "main.rs" main_file (entry "lib.rs" lib_file end)

abbrev rooted : Entries → Entries
rooted listing = entry "Cargo.toml" (file (ok (1 ∷ []))) (entry "src" (directory listing) end)

abbrev pub project : Root
project = child (rooted sources)

abbrev project_relisted : Root
project_relisted = child (rooted sources_relisted)

child-IsDistinct :
    (xs : Entries) (name : String) (node : Node)
    → AreDistinct xs
    → child xs name ≡ some node
    → IsDistinct node
child-IsDistinct end name node d h = cc
child-IsDistinct (failed error) name node d h = cc
child-IsDistinct (entry a x xs) name node d h = elim (Bool-cases (a == name)) [
  | inl p ↦ let same : x ≡ node = ground (arith, h, p) in subst (λ n. IsDistinct n) same d.1
  | inr p ↦ child-IsDistinct xs name node d.2 (ground (arith, h, p))
]

project-IsDistinct : HasDistinctNames project
project-IsDistinct name node h =
    child-IsDistinct (rooted sources) name node (refl, tt, (refl, (refl, tt, (refl, tt, tt)), tt)) h

project-IsRelisted : IsRelisted project project_relisted
project-IsRelisted name = elim (Bool-cases ("Cargo.toml" == name)) [
  | inl p ↦ rw (p) (unchanged _)
  | inr p ↦ elim (Bool-cases ("src" == name)) [
    | inl q ↦ rw (p, q) (listed (exchanged "lib.rs" "main.rs" lib_file main_file end))
    | inr q ↦ rw (p, q) tt
  ]
]

abbrev pub project_fingerprint : String
project_fingerprint =
    "0a00000000000000436172676f2e746f6d6c0100000000000000010a000000000000007372632f6c69622e72730100000000000000070b000000000000007372632f6d61696e2e727302000000000000000809"

compute_workspace_fingerprint-IsRelisted_example :
    compute_workspace_fingerprint "/w" codes digest project_relisted ≡ ok project_fingerprint
unfolding compute_workspace_fingerprint sort_by found_leb path_leb display
compute_workspace_fingerprint-IsRelisted_example =
    compute_workspace_fingerprint-IsRelisted "/w" codes digest project project_relisted
      project_fingerprint project-IsDistinct project-IsRelisted refl

abbrev project_files : List Found
project_files =
    ("Cargo.toml" ∷ [], ok (1 ∷ []))
    ∷ ("src" ∷ "lib.rs" ∷ [], ok (7 ∷ []))
    ∷ ("src" ∷ "main.rs" ∷ [], ok (8 ∷ 9 ∷ []))
    ∷ []

abbrev relisted_files : List Found
relisted_files =
    ("Cargo.toml" ∷ [], ok (1 ∷ []))
    ∷ ("src" ∷ "main.rs" ∷ [], ok (8 ∷ 9 ∷ []))
    ∷ ("src" ∷ "lib.rs" ∷ [], ok (7 ∷ []))
    ∷ []

abbrev project_input : Bytes
project_input =
    le_bytes 8 10
    ++ (codes "Cargo.toml" ++ (le_bytes 8 1 ++ (1 ∷ [])))
    ++ (le_bytes 8 10
        ++ (codes "src/lib.rs" ++ (le_bytes 8 1 ++ (7 ∷ [])))
        ++ (le_bytes 8 11 ++ (codes "src/main.rs" ++ (le_bytes 8 2 ++ (8 ∷ 9 ∷ [])))))

project_files-AreSized : AreSized "/w" codes project_files
unfolding display
project_files-AreSized = (
  omega arith,
  (λ bytes e. ground (arith, e)),
  (omega arith, (λ bytes e. ground (arith, e)), (omega arith, (λ bytes e. ground (arith, e)), tt)),
)

fingerprint_input-injective_example :
    map told (sort_by (found_leb "/w" codes) project_files)
    ≡ map told (sort_by (found_leb "/w" codes) relisted_files)
unfolding fingerprint_input sort_by found_leb path_leb display
fingerprint_input-injective_example =
    fingerprint_input-injective "/w" codes codes-injective project project_relisted project_files
      relisted_files project_input refl refl project_files-AreSized project_files-AreSized refl refl

-- A place for the snapshot where every call succeeds.
abbrev pub place : Destination
place = record {
  path = "/tmp/s";
  create_root = none;
  create_dir = λ path. none;
  copy = λ path. none;
}

-- The snapshot: the files of the root and its directories.
abbrev pub copy : Entries × Entries
copy = (entry "Cargo.toml" (file (ok (1 ∷ []))) end, entry "src" (directory sources) end)

or_else-some :
    (o o' : Option Node) (node : Node)
    → or_else o o' ≡ some node
    → (o ≡ some node) ⊎ (o' ≡ some node)
or_else-some none o' node h = inr h
or_else-some (some found) o' node h = inl h

pub copy-IsDistinct : HasDistinctNames (snapshot_root copy)
copy-IsDistinct name node h = elim (or_else-some (child copy.0 name) (child copy.1 name) node h) [
  | inl p ↦ child-IsDistinct copy.0 name node (refl, tt, tt) p
  | inr p ↦ child-IsDistinct copy.1 name node (refl, (refl, tt, (refl, tt, tt)), tt) p
]

pub Alike-same : (o : Option Node) → Alike o o
Alike-same none = tt
Alike-same (some node) = unchanged node

pub created : create "/w" place project ≡ ok copy
unfolding create display
created = refl

create-compute_workspace_fingerprint_example :
    HasDistinctNames (snapshot_root copy)
    × ((fingerprint : String) × (compute_workspace_fingerprint "/w" codes digest project
          ≡ ok fingerprint)
        × (compute_workspace_fingerprint "/tmp/s" codes digest (snapshot_root copy)
            ≡ ok fingerprint))
create-compute_workspace_fingerprint_example =
    create-compute_workspace_fingerprint "/w" place codes digest project copy (snapshot_root copy)
      created project-IsDistinct (λ name. Alike-same (snapshot_root copy name))
