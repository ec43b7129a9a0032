-- ===== src/CargoTest/Cleanup.antt =====
-- The capture files of a run.
use mathlib.Core.Path.{subst}
use zyguor_agent_execution_g.Base.{
  ℕ, String, ◌≡◌, refl, inl, inr, ◌⊎◌, Bool, true, false, Option, none, some, List, [], ◌∷◌, ◌++◌,
  Result, ok, err, Bool-cases, ◌==◌, string_eq,
}
use zyguor_agent_execution_g.Base.Sorting.{Among}
use zyguor_agent_execution_g.Config.{CargoTestConfig}
use zyguor_agent_execution_g.Gateway.Types.{CargoTestResult}
use zyguor_agent_execution_g.Workspace.{Entries}
use zyguor_agent_execution_g.Workspace.Snapshot.{create}
use zyguor_agent_execution_g.Workspace.Fingerprint.{compute_workspace_fingerprint}
use zyguor_agent_execution_g.CargoTest.{
  ExitStatus, Step, created_stdout, created_stderr, started, removed_stdout, removed_stderr, Host,
  Outcome, Polled, poll, conclude_run, watched, watch, then_steps, spawn_child, capture_stderr,
  capture_stdout, start_run, compare_snapshot, run_on, run, terminate_process_group,
  configure_cargo_environment_from,
}

-- A capture file was not made, or its removal was called for.
abbrev pub Cleans : List Step → Type 0
Cleans steps =
    ((Among created_stdout steps → ⊥) ⊎ Among removed_stdout steps)
    × ((Among created_stderr steps → ⊥) ⊎ Among removed_stderr steps)

-- Both are removed.
abbrev Removes : List Step → Type 0
Removes steps = Among removed_stdout steps × Among removed_stderr steps

Among-later : (step : Step) (xs ys : List Step) → Among step ys → Among step (xs ++ ys)
Among-later step [] ys i = i
Among-later step (x ∷ xs) ys i = inr (Among-later step xs ys i)

-- The first is removed, and the second if it was made.
abbrev RemovesMade : List Step → Type 0
RemovesMade steps =
    Among removed_stdout steps × ((Among created_stderr steps → ⊥) ⊎ Among removed_stderr steps)

Cleans-nothing : Cleans []
Cleans-nothing = (inl (λ made. absurd made), inl (λ made. absurd made))

-- The first capture file is not the second.
later-stderr :
    (steps : List Step)
    → (Among created_stderr steps → ⊥) ⊎ Among removed_stderr steps
    → (Among created_stderr (created_stdout ∷ steps) → ⊥)
      ⊎ Among removed_stderr (created_stdout ∷ steps)
later-stderr steps (inl never) = inl (λ made. elim made [ inl e ↦ cc | inr i ↦ never i ])
later-stderr steps (inr i) = inr (inr i)

-- The steps of a run that ends.
abbrev pub Ends : (List Step → Type 0) → Option Outcome → Type 0
Ends P none = Unit
Ends P (some outcome) = P outcome.1

pub Ends-some :
    (P : List Step → Type 0) {o : Option Outcome} {result : Result CargoTestResult String}
    {steps : List Step}
    → o ≡ some (result, steps)
    → Ends P o
    → P steps
Ends-some P {o} {result} {steps} e h = subst (λ o. Ends P o) e h

module _ (config : CargoTestConfig) (host : Host) where
  -- The group of a child that exited can be killed, or is gone.
  abbrev pub IsStopped : Type 0
  IsStopped = terminate_process_group host.process_id host.killpg_exited ≡ ok tt

  module _ (stopped : IsStopped) where
    conclude_run-Removes :
        (status : Result ExitStatus String) (timed_out : Bool)
        → Removes (conclude_run config host status timed_out).1
    unfolding conclude_run
    conclude_run-Removes (err error) timed_out = (inr (inr (inl refl)), inr (inr (inr (inl refl))))
    conclude_run-Removes (ok status) true = (inl refl, inr (inl refl))
    conclude_run-Removes (ok status) false =
        rw (stopped, conclude_run) (inr (inl refl), inr (inr (inl refl)))

    watched-Removes : (o : Option Polled) → Ends Removes (watched config host o)
    unfolding watched
    watched-Removes none = tt
    watched-Removes (some (status, timed_out, steps)) =
        let (out, errors) = conclude_run-Removes status timed_out in
        let more = (conclude_run config host status timed_out).1 in
        (Among-later removed_stdout steps more out, Among-later removed_stderr steps more errors)

    Ends-then_steps :
        (P Q : List Step → Type 0) (steps : List Step) (o : Option Outcome)
        → ((later : List Step) → P later → Q (steps ++ later))
        → Ends P o
        → Ends Q (then_steps config host steps o)
    Ends-then_steps P Q steps none f h = tt
    Ends-then_steps P Q steps (some outcome) f h = f outcome.1 h

    spawn_child-Removes :
        (fuel : ℕ) (failure : Option String) → Ends Removes (spawn_child config host fuel failure)
    unfolding spawn_child watch
    spawn_child-Removes fuel (some error) = (inl refl, inr (inl refl))
    spawn_child-Removes fuel none =
        Ends-then_steps Removes Removes
          (started (configure_cargo_environment_from host.vars_os) ∷ [])
          (watched config host (poll config host fuel 0)) (λ later r. (inr r.0, inr r.1))
          (watched-Removes (poll config host fuel 0))

    capture_stderr-Ends :
        (fuel : ℕ) (failure : Option String)
        → Ends RemovesMade (capture_stderr config host fuel failure)
    unfolding capture_stderr
    capture_stderr-Ends fuel (some error) =
        (inl refl, inl (λ made. elim made [ inl e ↦ cc | inr nothing ↦ absurd nothing ]))
    capture_stderr-Ends fuel none =
        Ends-then_steps Removes RemovesMade (created_stderr ∷ [])
          (spawn_child config host fuel host.spawn) (λ later r. (inr r.0, inr (inr r.1)))
          (spawn_child-Removes fuel host.spawn)

    capture_stdout-Ends :
        (fuel : ℕ) (failure : Option String) → Ends Cleans (capture_stdout config host fuel failure)
    unfolding capture_stdout
    capture_stdout-Ends fuel (some error) = Cleans-nothing
    capture_stdout-Ends fuel none =
        Ends-then_steps RemovesMade Cleans (created_stdout ∷ [])
          (capture_stderr config host fuel host.create_stderr)
          (λ later r. (inr (inr r.0), later-stderr later r.1))
          (capture_stderr-Ends fuel host.create_stderr)

    compare_snapshot-Ends :
        (fuel : ℕ) (expected : String) (computed : Result String String)
        → Ends Cleans (compare_snapshot config host fuel expected computed)
    unfolding compare_snapshot start_run
    compare_snapshot-Ends fuel expected (err error) = Cleans-nothing
    compare_snapshot-Ends fuel expected (ok found) = elim (Bool-cases (found == expected)) [
      | inl p ↦ rw (p, start_run) (capture_stdout-Ends fuel host.create_stdout)
      | inr p ↦ rw (p) Cleans-nothing
    ]

    run_on-Ends :
        (fuel : ℕ) (expected : String) (copied : Result (Entries × Entries) String)
        → Ends Cleans (run_on config host fuel expected copied)
    unfolding run_on
    run_on-Ends fuel expected (err error) = Cleans-nothing
    run_on-Ends fuel expected (ok copied) = compare_snapshot-Ends fuel expected (
        compute_workspace_fingerprint host.destination.path host.utf8 host.sha256
          (host.reading copied))

    -- Where the process group of a child that exited by itself can be killed or is gone, every
    -- run, whatever else fails in it, calls for the removal of each capture file that it made.
    pub run-Cleans :
        (fuel : ℕ) (expected_fingerprint : String) (result : Result CargoTestResult String)
        (steps : List Step)
        → run config host fuel expected_fingerprint ≡ some (result, steps)
        → Cleans steps
    unfolding run
    run-Cleans fuel expected result steps h =
        Ends-some Cleans h
          (run_on-Ends fuel expected (create host.workspace host.destination host.root))
