-- ===== src/CargoTest/Snapshotted.antt =====
-- What `cargo test` is started on, and with which variables.
use zyguor_agent_execution_g.Base.{
  ℕ, String, ◌≡◌, refl, sym, ap, ◌∙◌, inl, inr, Option, none, some, List, [], Result, ok, err,
  Bool-cases, ◌==◌, string_eq,
}
use text.Mathlib.TextEquality.{eq_iff}
use zyguor_agent_execution_g.Base.Sorting.{Among}
use zyguor_agent_execution_g.Config.{CargoTestConfig}
use zyguor_agent_execution_g.Gateway.Types.{CargoTestResult}
use zyguor_agent_execution_g.Workspace.{Entries}
use zyguor_agent_execution_g.Workspace.Snapshot.{create, snapshot_root}
use zyguor_agent_execution_g.Workspace.Fingerprint.{compute_workspace_fingerprint}
use zyguor_agent_execution_g.Workspace.Listing.{IsRelisted}
use zyguor_agent_execution_g.Workspace.Distinct.{HasDistinctNames}
use zyguor_agent_execution_g.Workspace.Approved.{same_fingerprint}
use zyguor_agent_execution_g.CargoTest.{
  Step, started, Host, Outcome, Environment, start_run, compare_snapshot, run_on, run,
}
use zyguor_agent_execution_g.CargoTest.Cleanup.{Ends, Ends-some}

-- `cargo test` is started only where the statement holds.
abbrev StartsIf : Type 0 → List Step → Type 0
StartsIf P steps = (environment : Environment) → Among (started environment) steps → P

Ends-any :
    (P : List Step → Type 0) (o : Option Outcome) → ((steps : List Step) → P steps) → Ends P o
Ends-any P none h = tt
Ends-any P (some outcome) h = h outcome.1

Ends-then :
    (P Q : List Step → Type 0) (o : Option Outcome)
    → ((steps : List Step) → P steps → Q steps)
    → Ends P o
    → Ends Q o
Ends-then P Q none f h = tt
Ends-then P Q (some outcome) f h = f outcome.1 h

Ends-nothing : (P : Type 0) → StartsIf P []
Ends-nothing P environment i = absurd i

module _ (config : CargoTestConfig) (host : Host) where
  compare_snapshot-Ends_approved :
      (fuel : ℕ) (expected : String) (computed : Result String String)
      → Ends
          (StartsIf (computed ≡ ok expected))
          (compare_snapshot config host fuel expected computed)
  unfolding compare_snapshot
  compare_snapshot-Ends_approved fuel expected (err error) = Ends-nothing (err error ≡ ok expected)
  compare_snapshot-Ends_approved fuel expected (ok found) = elim (Bool-cases (found == expected)) [
    | inl p ↦
        let approved : ok found ≡ ok expected = ap ok ((eq_iff found expected).0 p) in
        rw (p) (
          Ends-any (StartsIf (ok found ≡ ok expected)) (start_run config host fuel)
            (λ steps environment i. approved))
    | inr p ↦ rw (p) (Ends-nothing (ok found ≡ ok expected))
  ]

  -- The workspace has the fingerprint that is expected.
  abbrev Approves : String → Type 0
  Approves expected =
      compute_workspace_fingerprint host.workspace host.utf8 host.sha256 host.root ≡ ok expected

  -- What the walk over the snapshot finds is what was copied, and no directory has a name twice.
  abbrev pub IsFaithful : Type 0
  IsFaithful =
      (copied : Entries × Entries)
      → create host.workspace host.destination host.root ≡ ok copied
      → HasDistinctNames (snapshot_root copied)
        × IsRelisted (snapshot_root copied) (host.reading copied)

  run_on-Ends_approved :
      IsFaithful
      → (fuel : ℕ) (expected : String) (made : Result (Entries × Entries) String)
      → create host.workspace host.destination host.root ≡ made
      → Ends (StartsIf (Approves expected)) (run_on config host fuel expected made)
  unfolding run_on
  run_on-Ends_approved faithful fuel expected (err error) e = Ends-nothing (Approves expected)
  run_on-Ends_approved faithful fuel expected (ok copied) e =
      let (distinct, alike) = faithful copied e in
      let (fingerprint, p, q) =
        same_fingerprint host.workspace host.destination host.utf8 host.sha256 host.root copied
          (host.reading copied) e distinct alike in
      Ends-then
        (StartsIf (
          compute_workspace_fingerprint host.destination.path host.utf8 host.sha256
            (host.reading copied)
          ≡ ok expected))
        (StartsIf (Approves expected))
        (compare_snapshot config host fuel expected (
          compute_workspace_fingerprint host.destination.path host.utf8 host.sha256
            (host.reading copied)))
        (λ steps before environment i. p ∙ sym q ∙ before environment i)
        (compare_snapshot-Ends_approved fuel expected (
          compute_workspace_fingerprint host.destination.path host.utf8 host.sha256
            (host.reading copied)))

  -- Where the walk over the snapshot finds what was copied, in whatever order, `cargo test` is
  -- started only when the workspace itself has the fingerprint that was expected.
  pub run-compute_workspace_fingerprint :
      IsFaithful
      → (fuel : ℕ) (expected_fingerprint : String) (result : Result CargoTestResult String)
        (steps : List Step) (environment : Environment)
      → run config host fuel expected_fingerprint ≡ some (result, steps)
      → Among (started environment) steps
      → compute_workspace_fingerprint host.workspace host.utf8 host.sha256 host.root
        ≡ ok expected_fingerprint
  unfolding run
  run-compute_workspace_fingerprint faithful fuel expected result steps environment h i =
      Ends-some (StartsIf (Approves expected)) h
        (run_on-Ends_approved faithful fuel expected
          (create host.workspace host.destination host.root) refl)
        environment i
