-- ===== src/Workspace/Approved.antt =====
-- The snapshot's fingerprint against that of the workspace that it was taken of.
use zyguor_agent_execution_g.Base.{
  String, ◌≡◌, refl, ap, ◌∙◌, arith, inl, inr, Bool, string_eq, Option, List, [], ◌∷◌, ◌++◌, Result,
  ok, map_ok, Option-cases, Bool-cases,
}
use zyguor_agent_execution_g.Base.Sorting.{sort_by, insert_by}
use zyguor_agent_execution_g.Workspace.{Bytes, Node, Entries, end, Root}
use zyguor_agent_execution_g.Workspace.Fingerprint.{
  Found, root_file, source_directory, gather, root_files, source_directories, collect_workspace,
  compute_workspace_fingerprint, fingerprint_input, hash_input, found_leb, file_record, hex,
}
use zyguor_agent_execution_g.Workspace.Fingerprint.Unordered.{
  input_of_files, compute_workspace_fingerprint-IsRelisted,
}
use zyguor_agent_execution_g.Workspace.Listing.{IsRelisted}
use zyguor_agent_execution_g.Workspace.Distinct.{HasDistinctNames}
use zyguor_agent_execution_g.Workspace.Snapshot.{
  Destination, put, copy_root_file, copy_source_directory, copy_each, copy_workspace_inputs, create,
  snapshot_root,
}
use zyguor_agent_execution_g.Workspace.Copied.{AreRead, Mirrors, Mirrors-followed_by, put-ok}
use zyguor_agent_execution_g.Workspace.Named.{pair-ok, snapshot-HasDistinctNames}
use zyguor_agent_execution_g.Workspace.Turns.{
  copy_root_file-Mirrors, copy_source_directory-Mirrors, snapshot_files,
}

module _ (workspace : String) (destination : Destination) (utf8 : String → Bytes) where
  root_file-at :
      (root snapshot : Root) (name : String) (copied : Option Node)
      → copy_root_file workspace destination name (root name) ≡ ok copied
      → snapshot name ≡ copied
      → Mirrors
          (root_file workspace utf8 name (root name))
          (root_file destination.path utf8 name (snapshot name))
  root_file-at root snapshot name copied h e =
      rw (e) (copy_root_file-Mirrors workspace destination utf8 name (root name) copied h)

  source_directory-at :
      (root snapshot : Root) (name : String) (copied : Option Node)
      → copy_source_directory workspace destination name (root name) ≡ ok copied
      → snapshot name ≡ copied
      → Mirrors
          (source_directory workspace utf8 name (root name))
          (source_directory destination.path utf8 name (snapshot name))
  source_directory-at root snapshot name copied h e =
      rw (e) (copy_source_directory-Mirrors workspace destination utf8 name (root name) copied h)

  copy_each-step :
      (copy : String → Option Node → Result (Option Node) String) (root : Root) (name : String)
      (names : List String) (all : Entries)
      → copy_each workspace destination copy root (name ∷ names) ≡ ok all
      → (copied : Option Node) × (rest : Entries) × (copy name (root name) ≡ ok copied)
        × (copy_each workspace destination copy root names ≡ ok rest)
        × (all ≡ put name copied rest)
  unfolding copy_each
  copy_each-step copy root name names all h =
      put-ok name (copy name (root name)) (copy_each workspace destination copy root names) all h

  copy_each-end :
      (copy : String → Option Node → Result (Option Node) String) (root : Root) (all : Entries)
      → copy_each workspace destination copy root [] ≡ ok all
      → all ≡ end
  unfolding copy_each
  copy_each-end copy root all h = ground (arith, h)

  -- The loops of the fingerprint, on the workspace and on the snapshot.
  gather-Mirrors :
      (turn : String → Option Node → Result (List Found) String)
      (turn' : String → Option Node → Result (List Found) String) (root snapshot : Root)
      (name : String) (names : List String)
      → Mirrors (turn name (root name)) (turn' name (snapshot name))
      → Mirrors
          (gather workspace utf8 turn root names)
          (gather destination.path utf8 turn' snapshot names)
      → Mirrors
          (gather workspace utf8 turn root (name ∷ names))
          (gather destination.path utf8 turn' snapshot (name ∷ names))
  unfolding gather
  gather-Mirrors turn turn' root snapshot name names m rest =
      Mirrors-followed_by (turn name (root name)) (turn' name (snapshot name))
        (gather workspace utf8 turn root names) (gather destination.path utf8 turn' snapshot names)
        m rest

  gather-Mirrors_end :
      (turn turn' : String → Option Node → Result (List Found) String) (root snapshot : Root)
      → Mirrors
          (gather workspace utf8 turn root [])
          (gather destination.path utf8 turn' snapshot [])
  unfolding gather
  gather-Mirrors_end turn turn' root snapshot = ([], refl, refl, tt)

  pub collect_workspace-copied :
      (root : Root) (copied : Entries × Entries)
      → copy_workspace_inputs workspace destination root ≡ ok copied
      → Mirrors
          (collect_workspace workspace utf8 root)
          (collect_workspace destination.path utf8 (snapshot_root copied))
  unfolding collect_workspace copy_workspace_inputs
  collect_workspace-copied root copied h =
      let files = copy_root_file workspace destination in
      let directories = copy_source_directory workspace destination in
      let find = root_file workspace utf8 in
      let find' = root_file destination.path utf8 in
      let search_in = source_directory workspace utf8 in
      let search_in' = source_directory destination.path utf8 in
      let (hf, hd) =
        pair-ok (copy_each workspace destination files root root_files)
          (copy_each workspace destination directories root source_directories) copied h in
      let (a, la, pa, qa, ea) =
        copy_each-step files root "Cargo.toml" ("Cargo.lock" ∷ "build.rs" ∷ []) copied.0 hf in
      let (b, lb, pb, qb, eb) = copy_each-step files root "Cargo.lock" ("build.rs" ∷ []) la qa in
      let (c, lc, pc, qc, ec) = copy_each-step files root "build.rs" [] lb qb in
      let (d, ld, pd, qd, ed) = copy_each-step directories root "src" ("tests" ∷ []) copied.1 hd in
      let (e, le, pe, qe, ee) = copy_each-step directories root "tests" [] ld qd in
      let these : copied.0 ≡ put "Cargo.toml" a (put "Cargo.lock" b (put "build.rs" c end)) =
        rw (ea, eb, ec, copy_each-end files root lc qc) refl in
      let those : copied.1 ≡ put "src" d (put "tests" e end) =
        rw (ed, ee, copy_each-end directories root le qe) refl in
      let (sa, sb, sc, sd, se) = snapshot_files a b c d e in
      let snapshot = snapshot_root copied in
      let there : (name : String) (o : Option Node)
          → snapshot_root
              (
                put "Cargo.toml" a (put "Cargo.lock" b (put "build.rs" c end)),
                put "src" d (put "tests" e end),
              )
              name
            ≡ o
          → snapshot name ≡ o =
        λ name o at. rw (these, those) at in
      Mirrors-followed_by (gather workspace utf8 find root root_files)
        (gather destination.path utf8 find' snapshot root_files)
        (gather workspace utf8 search_in root source_directories)
        (gather destination.path utf8 search_in' snapshot source_directories)
        (gather-Mirrors find find' root snapshot "Cargo.toml" ("Cargo.lock" ∷ "build.rs" ∷ [])
          (root_file-at root snapshot "Cargo.toml" a pa (there "Cargo.toml" a sa))
          (gather-Mirrors find find' root snapshot "Cargo.lock" ("build.rs" ∷ [])
            (root_file-at root snapshot "Cargo.lock" b pb (there "Cargo.lock" b sb))
            (gather-Mirrors find find' root snapshot "build.rs" []
              (root_file-at root snapshot "build.rs" c pc (there "build.rs" c sc))
              (gather-Mirrors_end find find' root snapshot))))
        (gather-Mirrors search_in search_in' root snapshot "src" ("tests" ∷ [])
          (source_directory-at root snapshot "src" d pd (there "src" d sd))
          (gather-Mirrors search_in search_in' root snapshot "tests" []
            (source_directory-at root snapshot "tests" e pe (there "tests" e se))
            (gather-Mirrors_end search_in search_in' root snapshot)))

AreRead-insert_by :
    (le : Found → Found → Bool) (x : Found) (xs : List Found)
    → AreRead (x ∷ xs)
    → AreRead (insert_by le x xs)
unfolding insert_by
AreRead-insert_by le x [] r = r
AreRead-insert_by le x (y ∷ ys) (rx, (ry, rest)) = elim (Bool-cases (le x y)) [
  | inl p ↦ rw (p) (rx, (ry, rest))
  | inr p ↦ rw (p) (ry, AreRead-insert_by le x ys (rx, rest))
]

AreRead-sort_by :
    (le : Found → Found → Bool) (xs : List Found) → AreRead xs → AreRead (sort_by le xs)
unfolding sort_by
AreRead-sort_by le [] r = tt
AreRead-sort_by le (x ∷ xs) (rx, rest) =
    AreRead-insert_by le x (sort_by le xs) (rx, AreRead-sort_by le xs rest)

module _ (workspace copy : String) (utf8 : String → Bytes) where
  -- A list of files that were read has a hash, which does not ask where the workspace is.
  hash_input-AreRead :
      (files : List Found)
      → AreRead files
      → (input : Bytes) × (hash_input workspace utf8 files ≡ ok input)
        × (hash_input copy utf8 files ≡ ok input)
  unfolding hash_input
  hash_input-AreRead [] r = ([], refl, refl)
  hash_input-AreRead ((path, contents) ∷ rest) ((bytes, p), r) =
      let (input, h, k) = hash_input-AreRead rest r in
      (file_record workspace utf8 path bytes ++ input, rw (p, h) refl, rw (p, k) refl)

  fingerprint_input-Mirrors :
      (root snapshot : Root)
      → Mirrors (collect_workspace workspace utf8 root) (collect_workspace copy utf8 snapshot)
      → (input : Bytes) × (fingerprint_input workspace utf8 root ≡ ok input)
        × (fingerprint_input copy utf8 snapshot ≡ ok input)
  unfolding found_leb
  fingerprint_input-Mirrors root snapshot (files, p, q, r) =
      let (input, h, k) =
        hash_input-AreRead (sort_by (found_leb workspace utf8) files)
          (AreRead-sort_by (found_leb workspace utf8) files r) in
      (
        input,
        input_of_files workspace utf8 root files p ∙ h,
        input_of_files copy utf8 snapshot files q ∙ k,
      )

create-copied :
    (workspace : String) (destination : Destination) (root : Root) (copied : Entries × Entries)
    → create workspace destination root ≡ ok copied
    → copy_workspace_inputs workspace destination root ≡ ok copied
unfolding create
create-copied workspace destination root copied h = elim (Option-cases destination.create_root) [
  | inl p ↦ ground (arith, h, p)
  | inr (e, p) ↦ ground (arith, h, p)
]

-- A snapshot that lists no name twice in a directory has the fingerprint of its workspace.
pub same_fingerprint :
    (workspace : String) (destination : Destination) (utf8 : String → Bytes)
    (sha256 : Bytes → Bytes) (root : Root) (copied : Entries × Entries) (found : Root)
    → create workspace destination root ≡ ok copied
    → HasDistinctNames (snapshot_root copied)
    → IsRelisted (snapshot_root copied) found
    → (fingerprint : String) × (compute_workspace_fingerprint workspace utf8 sha256 root
        ≡ ok fingerprint)
      × (compute_workspace_fingerprint destination.path utf8 sha256 found ≡ ok fingerprint)
unfolding compute_workspace_fingerprint
same_fingerprint workspace destination utf8 sha256 root copied found h d r =
    let mirrors =
      collect_workspace-copied workspace destination utf8 root copied
        (create-copied workspace destination root copied h) in
    let (input, p, q) =
      fingerprint_input-Mirrors workspace destination.path utf8 root (snapshot_root copied)
        mirrors in
    let there = ap (map_ok λ bytes. hex (sha256 bytes)) q in
    (
      hex (sha256 input),
      rw (p) refl,
      compute_workspace_fingerprint-IsRelisted destination.path utf8 sha256 (snapshot_root copied)
          found (hex (sha256 input)) d r there,
    )

-- Where no directory of a workspace has one name twice, no directory of a snapshot that could be
-- made of it has; the workspace has a fingerprint, and the snapshot has the same one in whatever
-- order the system lists its directories.
pub create-compute_workspace_fingerprint :
    (workspace : String) (destination : Destination) (utf8 : String → Bytes)
    (sha256 : Bytes → Bytes) (root : Root) (copied : Entries × Entries) (found : Root)
    → create workspace destination root ≡ ok copied
    → HasDistinctNames root
    → IsRelisted (snapshot_root copied) found
    → HasDistinctNames (snapshot_root copied)
      × ((fingerprint : String) × (compute_workspace_fingerprint workspace utf8 sha256 root
            ≡ ok fingerprint)
          × (compute_workspace_fingerprint destination.path utf8 sha256 found ≡ ok fingerprint))
create-compute_workspace_fingerprint workspace destination utf8 sha256 root copied found h d r =
    let distinct =
      snapshot-HasDistinctNames workspace destination root copied d
        (create-copied workspace destination root copied h) in
    (distinct, same_fingerprint workspace destination utf8 sha256 root copied found h distinct r)
