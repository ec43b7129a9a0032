-- ===== src/Workspace/Fingerprint/Unordered.antt =====
-- What the fingerprint does not depend on.
use zyguor_agent_execution_g.Base.{String, ◌≡◌, refl, List, ok, Result-cases, inl, inr}
use zyguor_agent_execution_g.Base.Sorting.{sort_by, sort_by-Reorders, IsOrder}
use zyguor_agent_execution_g.Workspace.{Bytes, Root}
use zyguor_agent_execution_g.Workspace.Order.{path_leb-total, path_leb-transitive}
use zyguor_agent_execution_g.Workspace.Fingerprint.{
  Found, collect_workspace, found_leb, hash_input, fingerprint_input, compute_workspace_fingerprint,
}
use zyguor_agent_execution_g.Workspace.Listing.{IsRelisted, collect_workspace-IsRelisted}
use zyguor_agent_execution_g.Workspace.Distinct.{HasDistinctNames, collect_workspace-IsUnambiguous}

module _ (workspace : String) (utf8 : String → Bytes) where
  found_leb-IsOrder : IsOrder (found_leb workspace utf8)
  unfolding found_leb
  found_leb-IsOrder = record {
    total = λ x y. path_leb-total x.0 y.0;
    transitive = λ x y z. path_leb-transitive x.0 y.0 z.0;
  }

  pub input_of_files :
      (root : Root) (files : List Found)
      → collect_workspace workspace utf8 root ≡ ok files
      → fingerprint_input workspace utf8 root
        ≡ hash_input workspace utf8 (sort_by (found_leb workspace utf8) files)
  unfolding fingerprint_input
  input_of_files root files h = rw (h) refl

  files_of_input :
      (root : Root) (input : Bytes)
      → fingerprint_input workspace utf8 root ≡ ok input
      → (files : List Found) × (collect_workspace workspace utf8 root ≡ ok files)
  unfolding fingerprint_input
  files_of_input root input h = elim (Result-cases (collect_workspace workspace utf8 root)) [
    | inl found ↦ found
    | inr (e, p) ↦ cc
  ]

  -- Two listings of one workspace give the hash the same bytes.
  pub fingerprint_input-IsRelisted :
      (root root' : Root) (input : Bytes)
      → HasDistinctNames root
      → IsRelisted root root'
      → fingerprint_input workspace utf8 root ≡ ok input
      → fingerprint_input workspace utf8 root' ≡ ok input
  fingerprint_input-IsRelisted root root' input distinct alike h =
      let (files, p) = files_of_input root input h in
      let (files', q, reorders) =
        collect_workspace-IsRelisted workspace utf8 root root' alike files p in
      let sorted =
        sort_by-Reorders (found_leb workspace utf8) found_leb-IsOrder reorders
          (collect_workspace-IsUnambiguous workspace utf8 root distinct files p) in
      rw (input_of_files root' files' q, ← sorted, ← input_of_files root files p) h

-- The fingerprint of a workspace, once it is computed, does not depend on the order in which the
-- system lists directories: where no directory has one name twice, every other order of listing
-- gives the same fingerprint.
pub compute_workspace_fingerprint-IsRelisted :
    (workspace : String) (utf8 : String → Bytes) (sha256 : Bytes → Bytes) (root root' : Root)
    (fingerprint : String)
    → HasDistinctNames root
    → IsRelisted root root'
    → compute_workspace_fingerprint workspace utf8 sha256 root ≡ ok fingerprint
    → compute_workspace_fingerprint workspace utf8 sha256 root' ≡ ok fingerprint
unfolding compute_workspace_fingerprint
compute_workspace_fingerprint-IsRelisted workspace utf8 sha256 root root' fingerprint d r h =
    elim (Result-cases (fingerprint_input workspace utf8 root)) [
      | inl (input, p) ↦
          rw (fingerprint_input-IsRelisted workspace utf8 root root' input d r p, ← h, p) refl
      | inr (e, p) ↦ cc
    ]
