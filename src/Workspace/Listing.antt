-- ===== src/Workspace/Listing.antt =====
-- The order in which `read_dir` lists a directory.
use zyguor_agent_execution_g.Base.{
  String, ◌≡◌, refl, arith, string_eq, Option, none, some, List, [], ◌∷◌, ◌++◌, Result, ok, err,
}
use zyguor_agent_execution_g.Base.Sorting.{Reorders, same, Reorders-append, Reorders-blocks, chain}
use zyguor_agent_execution_g.Workspace.{Bytes, Node, directory, Entries, entry, Root, RelativePath}
use zyguor_agent_execution_g.Workspace.Fingerprint.{
  Found, followed_by, collect_node, collect_files, root_file, source_directory, gather, root_files,
  source_directories, collect_workspace,
}

-- The same directory, listed in another order, and so for the directories in it.
mutual
  pub data Rearranges : Node → Node → Type 0 where
    unchanged : (node : Node) → Rearranges node node
    listed : {xs ys : Entries} → Relists xs ys → Rearranges (directory xs) (directory ys)

  pub data Relists : Entries → Entries → Type 0 where
    as_before : (xs : Entries) → Relists xs xs
    below :
        (name : String) {x y : Node} {xs ys : Entries}
        → Rearranges x y
        → Relists xs ys
        → Relists (entry name x xs) (entry name y ys)
    exchanged :
        (a b : String) (x y : Node) (xs : Entries)
        → Relists (entry a x (entry b y xs)) (entry b y (entry a x xs))
    in_turn : {xs ys zs : Entries} → Relists xs ys → Relists ys zs → Relists xs zs

pub both-ok :
    (first next : Result (List Found) String) (all : List Found)
    → followed_by first next ≡ ok all
    → (found : List Found) × (others : List Found) × (first ≡ ok found)
      × (next ≡ ok others)
      × (all ≡ found ++ others)
both-ok (ok found) (ok others) all h = (found, others, refl, refl, ground (arith, h))
both-ok (ok found) (err e) all h = cc
both-ok (err e) next all h = cc

both :
    (first next : Result (List Found) String) (found others : List Found)
    → first ≡ ok found
    → next ≡ ok others
    → followed_by first next ≡ ok (found ++ others)
both first next found others h k = rw (h, k) refl

abbrev pub Alike : Option Node → Option Node → Type 0
Alike none none = Unit
Alike (some x) (some y) = Rearranges x y
Alike _ _ = ⊥

-- The list that a rearranged listing gives.
abbrev pub Relisted : Result (List Found) String → List Found → Type 0
Relisted result files = (files' : List Found) × (result ≡ ok files') × Reorders files files'

Relisted-both :
    (first next : Result (List Found) String) (found others : List Found)
    → Relisted first found
    → Relisted next others
    → Relisted (followed_by first next) (found ++ others)
Relisted-both first next found others (found', h, i) (others', k, j) =
    (found' ++ others', both first next found' others' h k, Reorders-append i j)

Relisted-exchanged :
    (a b rest : Result (List Found) String) (files : List Found)
    → followed_by a (followed_by b rest) ≡ ok files
    → Relisted (followed_by b (followed_by a rest)) files
Relisted-exchanged a b rest files h =
    let (xs, more, p, q, e) = both-ok a (followed_by b rest) files h in
    let (ys, zs, r, t, d) = both-ok b rest more q in
    (
      ys ++ (xs ++ zs),
      both b (followed_by a rest) ys (xs ++ zs) r (both a rest xs zs p t),
      rw (e, d) (Reorders-blocks xs ys zs),
    )

module _ (workspace : String) (utf8 : String → Bytes) where
  mutual
    unfolding collect_node

    node-Rearranges :
        {x y : Node}
        → Rearranges x y
        → (path : RelativePath) (files : List Found) → collect_node workspace utf8 path x ≡ ok files
        → Relisted (collect_node workspace utf8 path y) files
    node-Rearranges (unchanged node) path files h = (files, h, same files)
    node-Rearranges (listed r) path files h = files-Relists r path files h

    files-Relists :
        {xs ys : Entries}
        → Relists xs ys
        → (path : RelativePath) (files : List Found)
        → collect_files workspace utf8 path xs ≡ ok files
        → Relisted (collect_files workspace utf8 path ys) files
    files-Relists (as_before xs) path files h = (files, h, same files)
    files-Relists (below name {x} {y} {xs} {ys} r q) path files h =
        let (found, others, p, t, e) =
          both-ok (collect_node workspace utf8 (path ++ (name ∷ [])) x)
            (collect_files workspace utf8 path xs) files h in
        rw (e) (
          Relisted-both (collect_node workspace utf8 (path ++ (name ∷ [])) y)
            (collect_files workspace utf8 path ys) found others
            (node-Rearranges r (path ++ (name ∷ [])) found p) (files-Relists q path others t))
    files-Relists (exchanged a b x y xs) path files h =
        Relisted-exchanged (collect_node workspace utf8 (path ++ (a ∷ [])) x)
          (collect_node workspace utf8 (path ++ (b ∷ [])) y) (collect_files workspace utf8 path xs)
          files h
    files-Relists (in_turn r q) path files h =
        let (files', k, i) = files-Relists r path files h in
        let (files'', l, j) = files-Relists q path files' k in (files'', l, chain i j)

  root_file-Alike :
      (name : String) (x y : Option Node) (files : List Found)
      → Alike x y
      → root_file workspace utf8 name x ≡ ok files
      → Relisted (root_file workspace utf8 name y) files
  unfolding root_file
  root_file-Alike name none none files r h = (files, h, same files)
  root_file-Alike name none (some y) files r h = absurd r
  root_file-Alike name (some x) none files r h = absurd r
  root_file-Alike name (some _) (some _) files (unchanged x) h = (files, h, same files)
  root_file-Alike name (some (directory xs)) (some (directory ys)) files (listed r) h =
      (files, h, same files)

  source_directory-Alike :
      (name : String) (x y : Option Node) (files : List Found)
      → Alike x y
      → source_directory workspace utf8 name x ≡ ok files
      → Relisted (source_directory workspace utf8 name y) files
  unfolding source_directory
  source_directory-Alike name none none files r h = (files, h, same files)
  source_directory-Alike name none (some y) files r h = absurd r
  source_directory-Alike name (some x) none files r h = absurd r
  source_directory-Alike name (some _) (some _) files (unchanged x) h = (files, h, same files)
  source_directory-Alike name (some (directory xs)) (some (directory ys)) files (listed r) h =
      node-Rearranges (listed r) (name ∷ []) files h

-- The same workspace, its directories listed in another order.
abbrev pub IsRelisted : Root → Root → Type 0
IsRelisted root root' = (name : String) → Alike (root name) (root' name)

module _ (workspace : String) (utf8 : String → Bytes) (root root' : Root)
    (alike : IsRelisted root root') where
  gather-IsRelisted :
      (turn : String → Option Node → Result (List Found) String)
      → ((name : String) (x y : Option Node) (files : List Found)
          → Alike x y
          → turn name x ≡ ok files
          → Relisted (turn name y) files)
      → (names : List String) (files : List Found)
      → gather workspace utf8 turn root names ≡ ok files
      → Relisted (gather workspace utf8 turn root' names) files
  unfolding gather
  gather-IsRelisted turn keeps [] files h = (files, h, same files)
  gather-IsRelisted turn keeps (name ∷ names) files h =
      let (found, others, p, q, e) =
        both-ok (turn name (root name)) (gather workspace utf8 turn root names) files h in
      rw (e) (
        Relisted-both (turn name (root' name)) (gather workspace utf8 turn root' names) found others
          (keeps name (root name) (root' name) found (alike name) p)
          (gather-IsRelisted turn keeps names others q))

  pub collect_workspace-IsRelisted :
      (files : List Found)
      → collect_workspace workspace utf8 root ≡ ok files
      → Relisted (collect_workspace workspace utf8 root') files
  unfolding collect_workspace
  collect_workspace-IsRelisted files h =
      let files_of = root_file workspace utf8 in
      let directories_of = source_directory workspace utf8 in
      let (found, others, p, q, e) =
        both-ok (gather workspace utf8 files_of root root_files)
          (gather workspace utf8 directories_of root source_directories) files h in
      rw (e) (
        Relisted-both (gather workspace utf8 files_of root' root_files)
          (gather workspace utf8 directories_of root' source_directories) found others
          (gather-IsRelisted files_of (root_file-Alike workspace utf8) root_files found p)
          (gather-IsRelisted directories_of (source_directory-Alike workspace utf8)
            source_directories others q))
