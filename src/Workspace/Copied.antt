-- ===== src/Workspace/Copied.antt =====
-- The snapshot of src/workspace_snapshot.rs has the files that src/workspace_fingerprint.rs finds.
use zyguor_agent_execution_g.Base.{
  String, ◌<>◌, ◌≡◌, refl, arith, inl, inr, string_eq, Option, none, some, Option-cases, List, [],
  ◌∷◌, ◌++◌, Result, ok, err, Result-cases, map_ok, ◌>>=◌,
}
use zyguor_agent_execution_g.Workspace.{
  Bytes, Node, file, directory, unlisted, symbolic_link, other, uninspected, Entries, end, entry,
  failed, RelativePath, display,
}
use zyguor_agent_execution_g.Workspace.Fingerprint.{Found, followed_by, collect_node, collect_files}
use zyguor_agent_execution_g.Workspace.Snapshot.{
  Destination, checked, put, copy_file, copy_entry, copy_directory,
}

abbrev pub AreRead : List Found → Type 0
AreRead [] = Unit
AreRead ((path, contents) ∷ rest) = ((bytes : Bytes) × (contents ≡ ok bytes)) × AreRead rest

-- The same files are collected of both, and all were read.
abbrev pub Mirrors : Result (List Found) String → Result (List Found) String → Type 0
Mirrors here there = (files : List Found) × (here ≡ ok files) × (there ≡ ok files) × AreRead files

AreRead-append : (xs ys : List Found) → AreRead xs → AreRead ys → AreRead (xs ++ ys)
AreRead-append [] ys r s = s
AreRead-append (x ∷ xs) ys r s = (r.0, AreRead-append xs ys r.1 s)

pub Mirrors-followed_by :
    (a a' b b' : Result (List Found) String)
    → Mirrors a a'
    → Mirrors b b'
    → Mirrors (followed_by a b) (followed_by a' b')
Mirrors-followed_by a a' b b' (xs, h, h', r) (ys, k, k', s) =
    (xs ++ ys, rw (h, k) refl, rw (h', k') refl, AreRead-append xs ys r s)

pub put-ok :
    (name : String) (turn : Result (Option Node) String) (later : Result Entries String)
    (all : Entries)
    → (turn >>= λ copied. map_ok (put name copied) later) ≡ ok all
    → (copied : Option Node) × (rest : Entries) × (turn ≡ ok copied)
      × (later ≡ ok rest)
      × (all ≡ put name copied rest)
put-ok name (ok copied) (ok rest) all h = (copied, rest, refl, refl, ground (arith, h))
put-ok name (ok copied) (err e) all h = cc
put-ok name (err e) later all h = cc

pub directory-ok :
    (message : String) (error : Option String) (copied : Result Entries String) (o : Option Node)
    → (checked message error >>= λ u. map_ok (λ entries. some (directory entries)) copied) ≡ ok o
    → (entries : Entries) × (copied ≡ ok entries) × (o ≡ some (directory entries))
directory-ok message none (ok entries) o h = (entries, refl, ground (arith, h))
directory-ok message none (err e) o h = cc
directory-ok message (some error) copied o h = cc

pub err-ok : {o : Option Node} {error : String} → err error ≡ ok o → ⊥
err-ok h = cc

pub checked-ok :
    (message : String) (error : Option String) (next : Result (Option Node) String)
    (o : Option Node)
    → (checked message error >>= λ u. next) ≡ ok o
    → next ≡ ok o
checked-ok message none next o h = h
checked-ok message (some error) next o h = cc

module _ (workspace : String) (destination : Destination) (utf8 : String → Bytes) where
  pub copy_file-ok :
      (message : String) (path : RelativePath) (contents : Result Bytes String) (o : Option Node)
      → copy_file workspace destination message path contents ≡ ok o
      → (bytes : Bytes) × (contents ≡ ok bytes) × (o ≡ some (file (ok bytes)))
  unfolding copy_file
  copy_file-ok message path (err error) o h = cc
  copy_file-ok message path (ok bytes) o h = elim (Option-cases (destination.copy path)) [
    | inl p ↦ (bytes, refl, ground (arith, h, p))
    | inr (error, p) ↦ ground (arith, h, p)
  ]

  -- What is collected of an entry that may have been left out.
  abbrev pub collect_copied : RelativePath → Option Node → Result (List Found) String
  collect_copied path none = ok []
  collect_copied path (some node) = collect_node destination.path utf8 path node

  collect-put :
      (path : RelativePath) (name : String) (copied : Option Node) (rest : Entries)
      → collect_files destination.path utf8 path (put name copied rest)
        ≡ followed_by
            (collect_copied (path ++ (name ∷ [])) copied)
            (collect_files destination.path utf8 path rest)
  unfolding collect_node
  collect-put path name none rest =
      elim (Result-cases (collect_files destination.path utf8 path rest)) [
        | inl (files, p) ↦ rw (p) refl
        | inr (e, p) ↦ rw (p) refl
      ]
  collect-put path name (some node) rest = refl

  mutual
    unfolding copy_entry collect_node

    copy_entry-Mirrors :
        (path : RelativePath) (node : Node) (o : Option Node)
        → copy_entry workspace destination path node ≡ ok o
        → Mirrors (collect_node workspace utf8 path node) (collect_copied path o)
    copy_entry-Mirrors path (file contents) o h =
        let (bytes, p, q) =
          copy_file-ok
            ("failed to copy workspace file '" <> workspace <> "/" <> display path <> "': ") path
            contents o h in
        ((path, ok bytes) ∷ [], rw (p) refl, rw (q) refl, ((bytes, refl), tt))
    copy_entry-Mirrors path (directory entries) o h =
        let (entries', p, q) =
          directory-ok
            ("failed to create snapshot directory '"
              <> destination.path
              <> "/"
              <> display path
              <> "': ")
            (destination.create_dir path) (copy_directory workspace destination path entries) o h in
        let (files, r, s, t) = copy_directory-Mirrors path entries entries' p in
        (files, r, rw (q) s, t)
    copy_entry-Mirrors path (unlisted error) o h =
        let refused : Result (Option Node) String =
          err ("failed to read workspace directory '" <> display path <> "': " <> error) in
        let past =
          checked-ok
            ("failed to create snapshot directory '"
              <> destination.path
              <> "/"
              <> display path
              <> "': ")
            (destination.create_dir path) refused o h in
        absurd (err-ok past)
    copy_entry-Mirrors path symbolic_link o h = cc
    copy_entry-Mirrors path other o h =
        let nothing : o ≡ none = ground (arith, h) in ([], refl, rw (nothing) refl, tt)
    copy_entry-Mirrors path (uninspected error) o h = cc

    pub copy_directory-Mirrors :
        (path : RelativePath) (entries entries' : Entries)
        → copy_directory workspace destination path entries ≡ ok entries'
        → Mirrors
            (collect_files workspace utf8 path entries)
            (collect_files destination.path utf8 path entries')
    copy_directory-Mirrors path end entries' h =
        let nothing : entries' ≡ end = ground (arith, h) in ([], refl, rw (nothing) refl, tt)
    copy_directory-Mirrors path (failed error) entries' h = cc
    copy_directory-Mirrors path (entry name node rest) entries' h =
        let (copied, rest', p, q, e) =
          put-ok name (copy_entry workspace destination (path ++ (name ∷ [])) node)
            (copy_directory workspace destination path rest) entries' h in
        let (files, r, s, t) =
          Mirrors-followed_by (collect_node workspace utf8 (path ++ (name ∷ [])) node)
            (collect_copied (path ++ (name ∷ [])) copied) (collect_files workspace utf8 path rest)
            (collect_files destination.path utf8 path rest')
            (copy_entry-Mirrors (path ++ (name ∷ [])) node copied p)
            (copy_directory-Mirrors path rest rest' q) in
        (files, r, rw (e, collect-put path name copied rest') s, t)
