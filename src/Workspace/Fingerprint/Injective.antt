-- ===== src/Workspace/Fingerprint/Injective.antt =====
-- What the hash is fed tells every path and every byte: the lengths before them keep the records
-- apart.
use zyguor_agent_execution_g.Base.{
  ℕ, zero, suc, ◌*◌, ◌/◌, ◌%◌, ◌<◌, ◌^◌, String, ◌≡◌, refl, sym, ap, ◌∙◌, arith, List, [], ◌∷◌,
  ◌++◌, map, Result, ok, err, Result-cases, inl, inr,
}
use zyguor_agent_execution_g.Base.Lists.{length, append_assoc}
use zyguor_agent_execution_g.Base.Sorting.{sort_by}
use zyguor_agent_execution_g.Workspace.Fingerprint.Unordered.{input_of_files}
use zyguor_agent_execution_g.Workspace.{Bytes, RelativePath, display, Root}
use zyguor_agent_execution_g.Workspace.Fingerprint.{
  Found, le_bytes, file_record, hash_input, collect_workspace, fingerprint_input, found_leb,
}

-- The numbers that `width` bytes write.
abbrev words : ℕ → ℕ
words zero = 1
words (suc width) = 256 * words width

le_bytes-injective :
    (width m n : ℕ) (xs ys : Bytes)
    → m < words width
    → n < words width
    → le_bytes width m ++ xs ≡ le_bytes width n ++ ys
    → (m ≡ n) × (xs ≡ ys)
unfolding le_bytes
le_bytes-injective zero m n xs ys h k e = (omega arith, e)
le_bytes-injective (suc width) m n xs ys h k e =
    let lows : m % 256 ≡ n % 256 = ground (arith, e) in
    let rests : le_bytes width (m / 256) ++ xs ≡ le_bytes width (n / 256) ++ ys =
      ground (arith, e) in
    let (highs, behind) =
      le_bytes-injective width (m / 256) (n / 256) xs ys (omega arith) (omega arith) rests in
    (omega arith, behind)

append-injective :
    (xs ys us vs : Bytes) → length xs ≡ length ys → xs ++ us ≡ ys ++ vs → (xs ≡ ys) × (us ≡ vs)
append-injective [] [] us vs h e = (refl, e)
append-injective [] (y ∷ ys) us vs h e = absurd (omega arith)
append-injective (x ∷ xs) [] us vs h e = absurd (omega arith)
append-injective (x ∷ xs) (y ∷ ys) us vs h e =
    let heads : x ≡ y = ground (arith, e) in
    let (rests, behind) = append-injective xs ys us vs (omega arith) (ground (arith, e)) in
    (rw (heads, rests) refl, behind)

regroup : (a b c d e : Bytes) → (a ++ (b ++ (c ++ d))) ++ e ≡ a ++ (b ++ (c ++ (d ++ e)))
regroup a b c d e =
    rw (append_assoc a (b ++ (c ++ d)) e, append_assoc b (c ++ d) e, append_assoc c d e) refl

words_8 : words 8 ≡ 2 ^ 64
words_8 = refl

-- A file as the hash is told of it.
abbrev pub told : Found → String × Result Bytes String
told (path, contents) = (display path, contents)

module _ (workspace : String) (utf8 : String → Bytes) where
  -- The lengths fit `u64`.
  abbrev pub AreSized : List Found → Type 0
  AreSized [] = Unit
  AreSized ((path, contents) ∷ rest) =
      (length (utf8 (display path)) < 2 ^ 64)
      × ((bytes : Bytes) → contents ≡ ok bytes → length bytes < 2 ^ 64)
      × AreSized rest

  block-injective :
      (xs ys us vs : Bytes)
      → length xs < 2 ^ 64
      → length ys < 2 ^ 64
      → le_bytes 8 (length xs) ++ (xs ++ us) ≡ le_bytes 8 (length ys) ++ (ys ++ vs)
      → (xs ≡ ys) × (us ≡ vs)
  block-injective xs ys us vs h k e =
      let (lengths, behind) =
        le_bytes-injective 8 (length xs) (length ys) (xs ++ us) (ys ++ vs) (rw (words_8) h)
          (rw (words_8) k) e in
      append-injective xs ys us vs lengths behind

  record-append :
      (path : RelativePath) (contents rest : Bytes)
      → file_record workspace utf8 path contents ++ rest
        ≡ le_bytes 8 (length (utf8 (display path)))
          ++ (utf8 (display path) ++ (le_bytes 8 (length contents) ++ (contents ++ rest)))
  unfolding file_record
  record-append path contents rest =
      regroup (le_bytes 8 (length (utf8 (display path)))) (utf8 (display path))
        (le_bytes 8 (length contents)) contents rest

  record-injective :
      (p q : RelativePath) (b c rest rest' : Bytes)
      → length (utf8 (display p)) < 2 ^ 64
      → length (utf8 (display q)) < 2 ^ 64
      → length b < 2 ^ 64
      → length c < 2 ^ 64
      → file_record workspace utf8 p b ++ rest ≡ file_record workspace utf8 q c ++ rest'
      → (utf8 (display p) ≡ utf8 (display q)) × (b ≡ c) × (rest ≡ rest')
  record-injective p q b c rest rest' hp hq hb hc e =
      let flat = sym (record-append p b rest) ∙ e ∙ record-append q c rest' in
      let (names, behind) =
        block-injective (utf8 (display p)) (utf8 (display q)) (le_bytes 8 (length b) ++ (b ++ rest))
          (le_bytes 8 (length c) ++ (c ++ rest')) hp hq flat in
      let (contents, others) = block-injective b c rest rest' hb hc behind in
      (names, contents, others)

  -- A file that was read, and the rest.
  hash-entry :
      (path : RelativePath) (contents : Result Bytes String) (rest : List Found) (input : Bytes)
      → hash_input workspace utf8 ((path, contents) ∷ rest) ≡ ok input
      → (bytes : Bytes) × (others : Bytes) × (contents ≡ ok bytes)
        × (hash_input workspace utf8 rest ≡ ok others)
        × (input ≡ file_record workspace utf8 path bytes ++ others)
  unfolding hash_input
  hash-entry path (err e) rest input h = cc
  hash-entry path (ok bytes) rest input h = elim (Result-cases (hash_input workspace utf8 rest)) [
    | inl (others, p) ↦ (bytes, others, refl, p, ground (arith, h, p))
    | inr (e, p) ↦ ground (arith, h, p)
  ]

  record-is_some :
      (path : RelativePath) (bytes rest : Bytes)
      → [] ≡ file_record workspace utf8 path bytes ++ rest
      → ⊥
  unfolding file_record le_bytes
  record-is_some path bytes rest e = cc

  module _ (utf8-injective : (s t : String) → utf8 s ≡ utf8 t → s ≡ t) where
    pub hash_input-injective :
        (files files' : List Found) (input : Bytes)
        → AreSized files
        → AreSized files'
        → hash_input workspace utf8 files ≡ ok input
        → hash_input workspace utf8 files' ≡ ok input
        → map told files ≡ map told files'
    unfolding hash_input
    hash_input-injective [] [] input s s' h k = refl
    hash_input-injective [] ((q, d) ∷ rest') input s s' h k =
        let (c, others', u, v, w) = hash-entry q d rest' input k in
        let nothing : [] ≡ input = ground (arith, h) in
        absurd (record-is_some q c others' (nothing ∙ w))
    hash_input-injective ((p, a) ∷ rest) [] input s s' h k =
        let (b, others, u, v, w) = hash-entry p a rest input h in
        let nothing : [] ≡ input = ground (arith, k) in
        absurd (record-is_some p b others (nothing ∙ w))
    hash_input-injective ((p, a) ∷ rest) ((q, d) ∷ rest') input s s' h k =
        let (b, others, u, v, w) = hash-entry p a rest input h in
        let (c, others', u', v', w') = hash-entry q d rest' input k in
        let (names, contents, behind) =
          record-injective p q b c others others' s.0 s'.0 (s.1 b u) (s'.1 c u') (sym w ∙ w') in
        let later = hash_input-injective rest rest' others s.2 s'.2 v (v' ∙ ap ok (sym behind)) in
        let paths = utf8-injective (display p) (display q) names in
        rw (later, u, u', contents, paths) refl

    -- Where UTF-8 writes different strings differently and every length fits 64 bits, two
    -- workspaces whose fingerprints are taken of the same bytes have the same files, in the
    -- order of their paths: the same paths as displayed, and the same contents.
    pub fingerprint_input-injective :
        (root root' : Root) (files files' : List Found) (input : Bytes)
        → collect_workspace workspace utf8 root ≡ ok files
        → collect_workspace workspace utf8 root' ≡ ok files'
        → AreSized (sort_by (found_leb workspace utf8) files)
        → AreSized (sort_by (found_leb workspace utf8) files')
        → fingerprint_input workspace utf8 root ≡ ok input
        → fingerprint_input workspace utf8 root' ≡ ok input
        → map told (sort_by (found_leb workspace utf8) files)
          ≡ map told (sort_by (found_leb workspace utf8) files')
    fingerprint_input-injective root root' files files' input p q s s' h k =
        hash_input-injective (sort_by (found_leb workspace utf8) files)
          (sort_by (found_leb workspace utf8) files') input s s'
          (sym (input_of_files workspace utf8 root files p) ∙ h)
          (sym (input_of_files workspace utf8 root' files' q) ∙ k)
