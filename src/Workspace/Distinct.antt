-- ===== src/Workspace/Distinct.antt =====
-- Names are listed once in a directory, so that a path names one file.
use zyguor_agent_execution_g.Base.{
  String, ◌≡◌, refl, sym, ap, ◌∙◌, ◌⊎◌, inl, inr, arith, Bool, true, false, ◌||◌, ◌==◌, string_eq,
  if◌then◌else◌, Option, none, some, List, [], ◌∷◌, ◌++◌, Result, ok,
}
use text.Mathlib.TextEquality.{eq_iff}
use zyguor_agent_execution_g.Base.Lists.{append_assoc}
use zyguor_agent_execution_g.Base.Sorting.{Among, IsUnambiguous}
use zyguor_agent_execution_g.Workspace.{
  Bytes, Node, file, directory, unlisted, symbolic_link, other, uninspected, Entries, end, entry,
  failed, Root, RelativePath,
}
use zyguor_agent_execution_g.Workspace.Order.{path_leb-antisymmetric}
use zyguor_agent_execution_g.Workspace.Fingerprint.{
  Found, followed_by, collect_node, collect_files, root_file, source_directory, gather, root_files,
  source_directories, collect_workspace, found_leb,
}
use zyguor_agent_execution_g.Workspace.Listing.{both-ok}

abbrev pub has : Entries → String → Bool
has end name = false
has (failed error) name = false
has (entry a x xs) name = (a == name) || has xs name

-- No directory lists a name twice.
abbrev mutual
  pub IsDistinct : Node → Type 0
  IsDistinct (directory xs) = AreDistinct xs
  IsDistinct _ = Unit

  pub AreDistinct : Entries → Type 0
  AreDistinct end = Unit
  AreDistinct (failed error) = Unit
  AreDistinct (entry name x xs) = (has xs name ≡ false) × IsDistinct x × AreDistinct xs

abbrev pub HasDistinctNames : Root → Type 0
HasDistinctNames root = (name : String) (node : Node) → root name ≡ some node → IsDistinct node

-- What stands at a path.
abbrev mutual
  find : Node → RelativePath → Option (Result Bytes String)
  find (file contents) path = some contents
  find (directory xs) [] = none
  find (directory xs) (name ∷ path) = find_entry xs name path
  find _ path = none

  find_entry : Entries → String → RelativePath → Option (Result Bytes String)
  find_entry end name path = none
  find_entry (failed error) name path = none
  find_entry (entry a x xs) name path =
      let here = find x path in
      let there = find_entry xs name path in if a == name then here else there

abbrev find_root : Root → RelativePath → Option (Result Bytes String)
find_root root [] = none
find_root root (name ∷ path) = elim (root name) [ none ↦ none | some node ↦ find node path ]

find_entry-has :
    (xs : Entries) (name : String) (path : RelativePath) (contents : Result Bytes String)
    → find_entry xs name path ≡ some contents
    → has xs name ≡ true
find_entry-has end name path contents h = cc
find_entry-has (failed error) name path contents h = cc
find_entry-has (entry a x xs) name path contents h =
    ground (arith, h, find_entry-has xs name path contents)

Among-append : (xs ys : List Found) (x : Found) → Among x (xs ++ ys) → Among x xs ⊎ Among x ys
Among-append [] ys x i = inr i
Among-append (z ∷ xs) ys x (inl e) = inl (inl e)
Among-append (z ∷ xs) ys x (inr i) = elim (Among-append xs ys x i) [
  | inl j ↦ inl (inr j)
  | inr j ↦ inr j
]

Among-equal : {xs ys : List Found} → xs ≡ ys → (x : Found) → Among x xs → Among x ys
Among-equal e x i = rw (← e) i

found_same :
    (at : RelativePath → Option (Result Bytes String)) (p q : RelativePath)
    (c d : Result Bytes String)
    → p ≡ q
    → at p ≡ some c
    → at q ≡ some d
    → ◌≡◌ {A = Found} (p, c) (q, d)
found_same at p q c d e h k =
    let values : some c ≡ some d = sym h ∙ ap at e ∙ k in
    let contents : c ≡ d = ground (arith, values) in rw (e, contents) refl

append_nil : (p : RelativePath) → p ≡ p ++ []
append_nil [] = refl
append_nil (x ∷ p) = ap (λ q. x ∷ q) (append_nil p)

-- A file is found where its path says, below the path of the walk.
abbrev Stands : (path : RelativePath) → Node → Found → Type 0
Stands path node found =
    (below : RelativePath) × (found.0 ≡ path ++ below) × (find node below ≡ some found.1)

abbrev StandsIn : (path : RelativePath) → Entries → Found → Type 0
StandsIn path xs found =
    (name : String) × (below : RelativePath) × (found.0 ≡ path ++ (name ∷ below))
    × (find_entry xs name below ≡ some found.1)

StandsIn-entry :
    (path : RelativePath) (name : String) (node : Node) (xs : Entries) (found : Found)
    → Stands (path ++ (name ∷ [])) node found
    → StandsIn path (entry name node xs) found
StandsIn-entry path name node xs found (below, e, h) =
    (name, below, e ∙ append_assoc path (name ∷ []) below, ground (arith, h, eq_iff name name))

StandsIn-later :
    (path : RelativePath) (a : String) (node : Node) (xs : Entries) (found : Found)
    → has xs a ≡ false
    → StandsIn path xs found
    → StandsIn path (entry a node xs) found
StandsIn-later path a node xs found absent (name, below, e, h) = (
  name,
  below,
  e,
  ground (arith, h, absent, eq_iff a name, find_entry-has xs name below found.1 h),
)

module _ (workspace : String) (utf8 : String → Bytes) where
  mutual
    unfolding collect_node

    collect_node-Stands :
        (path : RelativePath) (node : Node) (files : List Found)
        → IsDistinct node
        → collect_node workspace utf8 path node ≡ ok files
        → (found : Found) → Among found files
        → Stands path node found
    collect_node-Stands path (file contents) files d h found i =
        let one : files ≡ (path, contents) ∷ [] = ground (arith, h) in
        elim (Among-equal one found i) [
          | inl e ↦ ([], ap (λ f. f.0) (sym e) ∙ append_nil path, ap (λ f. some f.1) e)
          | inr none_left ↦ absurd none_left
        ]
    collect_node-Stands path (directory xs) files d h found i =
        let (name, below, e, at) = collect_files-Stands path xs files d h found i in
        (name ∷ below, e, at)
    collect_node-Stands path (unlisted error) files d h found i = cc
    collect_node-Stands path symbolic_link files d h found i = cc
    collect_node-Stands path other files d h found i =
        let nothing : files ≡ [] = ground (arith, h) in absurd (Among-equal nothing found i)
    collect_node-Stands path (uninspected error) files d h found i = cc

    collect_files-Stands :
        (path : RelativePath) (xs : Entries) (files : List Found)
        → AreDistinct xs
        → collect_files workspace utf8 path xs ≡ ok files
        → (found : Found) → Among found files
        → StandsIn path xs found
    collect_files-Stands path end files d h found i =
        let nothing : files ≡ [] = ground (arith, h) in absurd (Among-equal nothing found i)
    collect_files-Stands path (failed error) files d h found i = cc
    collect_files-Stands path (entry name node xs) files d h found i =
        let (here, later, p, q, e) =
          both-ok (collect_node workspace utf8 (path ++ (name ∷ [])) node)
            (collect_files workspace utf8 path xs) files h in
        elim (Among-append here later found (Among-equal e found i)) [
          | inl j ↦
              StandsIn-entry path name node xs found
                (collect_node-Stands (path ++ (name ∷ [])) node here d.1 p found j)
          | inr j ↦
              StandsIn-later path name node xs found d.0
                (collect_files-Stands path xs later d.2 q found j)
        ]

  module _ (root : Root) (distinct : HasDistinctNames root) where
    -- Every file that a step finds is what the workspace has at its path.
    abbrev AreThere : Result (List Found) String → Type 0
    AreThere result =
        (files : List Found)
        → result ≡ ok files
        → (found : Found) → Among found files
        → find_root root found.0 ≡ some found.1

    AreThere-none : AreThere (ok [])
    AreThere-none files h found i =
        let nothing : files ≡ [] = ground (arith, h) in absurd (Among-equal nothing found i)

    AreThere-followed_by :
        (first next : Result (List Found) String)
        → AreThere first
        → AreThere next
        → AreThere (followed_by first next)
    AreThere-followed_by first next a b files h found i =
        let (xs, ys, p, q, e) = both-ok first next files h in
        elim (Among-append xs ys found (Among-equal e found i)) [
          | inl j ↦ a xs p found j
          | inr j ↦ b ys q found j
        ]

    find_root-Stands :
        (name : String) (node : Node) (found : Found)
        → root name ≡ some node
        → Stands (name ∷ []) node found
        → find_root root found.0 ≡ some found.1
    find_root-Stands name node found p (below, e, h) = rw (e, p) h

    root_file-AreThere :
        (name : String) (o : Option Node)
        → root name ≡ o
        → AreThere (root_file workspace utf8 name o)
    unfolding root_file collect_node
    root_file-AreThere name none p files h found i = AreThere-none files h found i
    root_file-AreThere name (some (file contents)) p files h found i =
        find_root-Stands name (file contents) found p
          (collect_node-Stands (name ∷ []) (file contents) files tt h found i)
    root_file-AreThere name (some symbolic_link) p files h found i = cc
    root_file-AreThere name (some (uninspected error)) p files h found i = cc
    root_file-AreThere name (some (directory entries)) p files h found i =
        AreThere-none files h found i
    root_file-AreThere name (some (unlisted error)) p files h found i =
        AreThere-none files h found i
    root_file-AreThere name (some other) p files h found i = AreThere-none files h found i

    source_directory-AreThere :
        (name : String) (o : Option Node)
        → root name ≡ o
        → AreThere (source_directory workspace utf8 name o)
    unfolding source_directory collect_node
    source_directory-AreThere name none p files h found i = AreThere-none files h found i
    source_directory-AreThere name (some (file contents)) p files h found i =
        AreThere-none files h found i
    source_directory-AreThere name (some symbolic_link) p files h found i = cc
    source_directory-AreThere name (some (uninspected error)) p files h found i = cc
    source_directory-AreThere name (some (directory entries)) p files h found i =
        find_root-Stands name (directory entries) found p (
          collect_node-Stands (name ∷ []) (directory entries) files
            (distinct name (directory entries) p) h found i)
    source_directory-AreThere name (some (unlisted error)) p files h found i = cc
    source_directory-AreThere name (some other) p files h found i = AreThere-none files h found i

    gather-AreThere :
        (turn : String → Option Node → Result (List Found) String)
        → ((name : String) (o : Option Node) → root name ≡ o → AreThere (turn name o))
        → (names : List String) → AreThere (gather workspace utf8 turn root names)
    unfolding gather
    gather-AreThere turn each [] = AreThere-none
    gather-AreThere turn each (name ∷ names) =
        AreThere-followed_by (turn name (root name)) (gather workspace utf8 turn root names)
          (each name (root name) refl) (gather-AreThere turn each names)

    collect_workspace-AreThere : AreThere (collect_workspace workspace utf8 root)
    unfolding collect_workspace
    collect_workspace-AreThere =
        AreThere-followed_by (gather workspace utf8 (root_file workspace utf8) root root_files)
          (gather workspace utf8 (source_directory workspace utf8) root source_directories)
          (gather-AreThere (root_file workspace utf8) root_file-AreThere root_files)
          (gather-AreThere (source_directory workspace utf8) source_directory-AreThere
            source_directories)

    pub collect_workspace-IsUnambiguous :
        (files : List Found)
        → collect_workspace workspace utf8 root ≡ ok files
        → IsUnambiguous (found_leb workspace utf8) files
    unfolding found_leb
    collect_workspace-IsUnambiguous files h x y i j p q =
        let paths : x.0 ≡ y.0 = path_leb-antisymmetric x.0 y.0 p q in
        let here = collect_workspace-AreThere files h x i in
        let there = collect_workspace-AreThere files h y j in
        found_same (find_root root) x.0 y.0 x.1 y.1 paths here there
