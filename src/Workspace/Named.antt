-- ===== src/Workspace/Named.antt =====
-- A copy lists no name twice in a directory, where the workspace does not.
use mathlib.Core.Path.{subst}
use zyguor_agent_execution_g.Base.{
  String, ◌<>◌, ◌≡◌, sym, ◌⊎◌, inl, inr, true, false, Bool-cases, ◌==◌, string_eq, Option, none,
  some, Option-cases, map_ok, ◌>>=◌, List, [], ◌∷◌, ◌++◌, Result, ok, err, arith,
}
use zyguor_agent_execution_g.Workspace.{
  Node, file, directory, unlisted, symbolic_link, other, uninspected, Entries, end, entry, failed,
  Root, RelativePath, display,
}
use zyguor_agent_execution_g.Workspace.Fingerprint.{root_files, source_directories}
use zyguor_agent_execution_g.Workspace.Distinct.{has, IsDistinct, AreDistinct, HasDistinctNames}
use zyguor_agent_execution_g.Workspace.Snapshot.{
  Destination, put, copy_entry, copy_directory, copy_root_file, copy_source_directory, copy_each,
  child, or_else, copy_workspace_inputs, snapshot_root,
}
use zyguor_agent_execution_g.Workspace.Copied.{
  put-ok, directory-ok, checked-ok, err-ok, copy_file-ok,
}

pub pair-ok :
    (files directories : Result Entries String) (all : Entries × Entries)
    → (files >>= λ fs. map_ok (λ ds. (fs, ds)) directories) ≡ ok all
    → (files ≡ ok all.0) × (directories ≡ ok all.1)
pair-ok (ok fs) (ok ds) all h = (ground (arith, h), ground (arith, h))
pair-ok (ok fs) (err e) all h = cc
pair-ok (err e) directories all h = cc

-- What was copied, if anything was.
abbrev pub IsDistinctCopy : Option Node → Type 0
IsDistinctCopy none = Unit
IsDistinctCopy (some node) = IsDistinct node

-- Every name of the one is a name of the other.
abbrev pub NamedIn : Entries → Entries → Type 0
NamedIn ys xs = (name : String) → has ys name ≡ true → has xs name ≡ true

copy-distinct : (o o' : Option Node) → o ≡ o' → IsDistinctCopy o' → IsDistinctCopy o
copy-distinct o o' e d = rw e d

put-AreDistinct :
    (name : String) (node : Node) (copied : Option Node) (rest rest' : Entries)
    → has rest name ≡ false
    → IsDistinctCopy copied
    → AreDistinct rest'
    → NamedIn rest' rest
    → AreDistinct (put name copied rest') × NamedIn (put name copied rest') (entry name node rest)
put-AreDistinct name node none rest rest' absent d ds named = (ds, λ n h. ground (arith, named n h))
put-AreDistinct name node (some copy) rest rest' absent d ds named =
    let still : has rest' name ≡ false = elim (Bool-cases (has rest' name)) [
      | inl p ↦ ground (arith, absent, named name p)
      | inr p ↦ p
    ] in
    (
      (still, d, ds),
      λ n h. elim (Bool-cases (has rest' n)) [
        | inl p ↦ ground (arith, named n p)
        | inr p ↦ ground (arith, h, p)
      ],
    )

module _ (workspace : String) (destination : Destination) where
  mutual
    unfolding copy_entry

    copy_entry-IsDistinct :
        (path : RelativePath) (node : Node) (o : Option Node)
        → IsDistinct node
        → copy_entry workspace destination path node ≡ ok o
        → IsDistinctCopy o
    copy_entry-IsDistinct path (file contents) o d h =
        let (bytes, p, q) =
          copy_file-ok workspace destination (λ s. [])
            ("failed to copy workspace file '" <> workspace <> "/" <> display path <> "': ") path
            contents o h in
        copy-distinct o (some (file (ok bytes))) q tt
    copy_entry-IsDistinct path (directory entries) o d h =
        let (entries', p, q) =
          directory-ok
            ("failed to create snapshot directory '"
              <> destination.path
              <> "/"
              <> display path
              <> "': ")
            (destination.create_dir path) (copy_directory workspace destination path entries) o h in
        copy-distinct o (some (directory entries')) q
          (copy_directory-AreDistinct path entries entries' d p).0
    copy_entry-IsDistinct path (unlisted error) o d h =
        let refused : Result (Option Node) String =
          err ("failed to read workspace directory '" <> display path <> "': " <> error) in
        let past =
          checked-ok
            ("failed to create snapshot directory '"
              <> destination.path
              <> "/"
              <> display path
              <> "': ")
            (destination.create_dir path) refused o h in
        absurd (err-ok past)
    copy_entry-IsDistinct path symbolic_link o d h = cc
    copy_entry-IsDistinct path other o d h =
        let nothing : o ≡ none = ground (arith, h) in copy-distinct o none nothing tt
    copy_entry-IsDistinct path (uninspected error) o d h = cc

    copy_directory-AreDistinct :
        (path : RelativePath) (entries entries' : Entries)
        → AreDistinct entries
        → copy_directory workspace destination path entries ≡ ok entries'
        → AreDistinct entries' × NamedIn entries' entries
    copy_directory-AreDistinct path end entries' d h =
        let nothing : entries' ≡ end = ground (arith, h) in
        subst (λ es. AreDistinct es × NamedIn es end) (sym nothing) (tt, λ name k. k)
    copy_directory-AreDistinct path (failed error) entries' d h = cc
    copy_directory-AreDistinct path (entry name node rest) entries' d h =
        let (copied, rest', p, q, e) =
          put-ok name (copy_entry workspace destination (path ++ (name ∷ [])) node)
            (copy_directory workspace destination path rest) entries' h in
        let one = copy_entry-IsDistinct (path ++ (name ∷ [])) node copied d.1 p in
        let (others, named) = copy_directory-AreDistinct path rest rest' d.2 q in
        subst (λ es. AreDistinct es × NamedIn es (entry name node rest)) (sym e)
          (put-AreDistinct name node copied rest rest' d.0 one others named)

  copy_root_file-IsDistinct :
      (name : String) (node o : Option Node)
      → copy_root_file workspace destination name node ≡ ok o
      → IsDistinctCopy o
  unfolding copy_root_file
  copy_root_file-IsDistinct name (some (file contents)) o h =
      let (bytes, p, q) =
        copy_file-ok workspace destination (λ s. [])
          ("failed to copy workspace file '" <> name <> "': ") (name ∷ []) contents o h in
      copy-distinct o (some (file (ok bytes))) q tt
  copy_root_file-IsDistinct name none o h = copy-distinct o none (ground (arith, h)) tt
  copy_root_file-IsDistinct name (some symbolic_link) o h = cc
  copy_root_file-IsDistinct name (some (uninspected error)) o h = cc
  copy_root_file-IsDistinct name (some (directory entries)) o h =
      copy-distinct o none (ground (arith, h)) tt
  copy_root_file-IsDistinct name (some (unlisted error)) o h =
      copy-distinct o none (ground (arith, h)) tt
  copy_root_file-IsDistinct name (some other) o h = copy-distinct o none (ground (arith, h)) tt

  copy_source_directory-IsDistinct :
      (name : String) (node o : Option Node)
      → IsDistinctCopy node
      → copy_source_directory workspace destination name node ≡ ok o
      → IsDistinctCopy o
  unfolding copy_source_directory
  copy_source_directory-IsDistinct name none o d h = copy-distinct o none (ground (arith, h)) tt
  copy_source_directory-IsDistinct name (some (file contents)) o d h =
      copy-distinct o none (ground (arith, h)) tt
  copy_source_directory-IsDistinct name (some other) o d h =
      copy-distinct o none (ground (arith, h)) tt
  copy_source_directory-IsDistinct name (some symbolic_link) o d h = cc
  copy_source_directory-IsDistinct name (some (uninspected error)) o d h = cc
  copy_source_directory-IsDistinct name (some (unlisted error)) o d h =
      let refused : Result (Option Node) String =
        err ("failed to read workspace directory '" <> name <> "': " <> error) in
      let past =
        checked-ok ("failed to create snapshot directory '" <> name <> "': ")
          (destination.create_dir (name ∷ [])) refused o h in
      absurd (err-ok past)
  copy_source_directory-IsDistinct name (some (directory entries)) o d h =
      let (entries', p, q) =
        directory-ok ("failed to create snapshot directory '" <> name <> "': ")
          (destination.create_dir (name ∷ []))
          (copy_directory workspace destination (name ∷ []) entries) o h in
      copy-distinct o (some (directory entries')) q
        (copy_directory-AreDistinct (name ∷ []) entries entries' d p).0

  child-put :
      (a name : String) (copied : Option Node) (rest : Entries) (node : Node)
      → child (put a copied rest) name ≡ some node
      → (copied ≡ some node) ⊎ (child rest name ≡ some node)
  child-put a name none rest node h = inr h
  child-put a name (some copy) rest node h = elim (Bool-cases (a == name)) [
    | inl p ↦ inl (ground (arith, h, p))
    | inr p ↦ inr (ground (arith, h, p))
  ]

  copy_each-IsDistinct :
      (turn : String → Option Node → Result (Option Node) String) (root : Root)
      → ((name : String) (o : Option Node) → turn name (root name) ≡ ok o → IsDistinctCopy o)
      → (names : List String) (all : Entries)
      → copy_each workspace destination turn root names ≡ ok all
      → (name : String) (node : Node) → child all name ≡ some node
      → IsDistinct node
  unfolding copy_each
  copy_each-IsDistinct turn root keeps [] all h name node found =
      let nothing : all ≡ end = ground (arith, h) in
      let missing : child end name ≡ some node =
        subst (λ es. child es name ≡ some node) nothing found in
      cc
  copy_each-IsDistinct turn root keeps (a ∷ names) all h name node found =
      let (copied, rest, p, q, e) =
        put-ok a (turn a (root a)) (copy_each workspace destination turn root names) all h in
      elim (child-put a name copied rest node (subst (λ es. child es name ≡ some node) e found)) [
        | inl here ↦ subst (λ o. IsDistinctCopy o) here (keeps a copied p)
        | inr there ↦ copy_each-IsDistinct turn root keeps names rest q name node there
      ]

or_else-some :
    (o o' : Option Node) (node : Node)
    → or_else o o' ≡ some node
    → (o ≡ some node) ⊎ (o' ≡ some node)
or_else-some none o' node h = inr h
or_else-some (some found) o' node h = inl h

root-distinct : (root : Root) → HasDistinctNames root → (name : String) → IsDistinctCopy (root name)
root-distinct root d name = elim (Option-cases (root name)) [
  | inl p ↦ rw p tt
  | inr (node, p) ↦ copy-distinct (root name) (some node) p (d name node p)
]

-- No directory of a snapshot has one name twice, where none of the workspace does.
pub snapshot-HasDistinctNames :
    (workspace : String) (destination : Destination) (root : Root) (copied : Entries × Entries)
    → HasDistinctNames root
    → copy_workspace_inputs workspace destination root ≡ ok copied
    → HasDistinctNames (snapshot_root copied)
unfolding copy_workspace_inputs
snapshot-HasDistinctNames workspace destination root copied d h name node found =
    let files = copy_root_file workspace destination in
    let directories = copy_source_directory workspace destination in
    let (hf, hd) =
      pair-ok (copy_each workspace destination files root root_files)
        (copy_each workspace destination directories root source_directories) copied h in
    elim (or_else-some (child copied.0 name) (child copied.1 name) node found) [
      | inl p ↦
          copy_each-IsDistinct workspace destination files root
            (λ a o k. copy_root_file-IsDistinct workspace destination a (root a) o k) root_files
            copied.0 hf name node p
      | inr p ↦
          copy_each-IsDistinct workspace destination directories root
            (λ a o k.
              copy_source_directory-IsDistinct workspace destination a (root a) o
                (root-distinct root d a) k)
            source_directories copied.1 hd name node p
    ]
