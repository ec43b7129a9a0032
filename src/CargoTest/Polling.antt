-- ===== src/CargoTest/Polling.antt =====
-- The loop of `run` ends by itself.
use zyguor_agent_execution_g.Base.{
  ℕ, zero, suc, ◌+◌, ◌*◌, ◌/◌, ◌≤◌, String, ◌≡◌, refl, arith, inl, inr, ◌⊎◌, true, Option, none,
  some, List, [], ◌∷◌, Result, ok, err, Bool-cases, leb, ◌==◌, string_eq,
}
use zyguor_agent_execution_g.Config.{CargoTestConfig}
use zyguor_agent_execution_g.Workspace.Snapshot.{create}
use zyguor_agent_execution_g.Workspace.{Entries}
use zyguor_agent_execution_g.Workspace.Fingerprint.{compute_workspace_fingerprint}
use zyguor_agent_execution_g.CargoTest.{
  ExitStatus, Step, Host, Outcome, poll, poll_turn, Polled, watch, start_run, compare_snapshot,
  started, created_stdout, created_stderr, spawn_child, capture_stderr, capture_stdout, run_on,
  configure_cargo_environment_from, run, poll_fuel, then_steps,
}

abbrev Answered {ℓ} : {A : Type ℓ} → Option A → Type ℓ
Answered {A = A} o = (a : A) × (o ≡ some a)

module _ (config : CargoTestConfig) (host : Host) where
  -- Each turn takes the 25 milliseconds of its sleep at least.
  abbrev pub IsTimed : Type 0
  IsTimed = (k : ℕ) → host.elapsed k + 25 ≤ host.elapsed (suc k)

  module _ (timed : IsTimed) where
    turn-Answered :
        (answer : Result (Option ExitStatus) String) (elapsed : ℕ) (later : Option Polled)
        → (leb config.timeout elapsed ≡ true) ⊎ Answered later
        → Answered (poll_turn config host answer elapsed later)
    unfolding poll_turn
    turn-Answered (err error) elapsed later h = (_, refl)
    turn-Answered (ok (some status)) elapsed later h = (_, refl)
    turn-Answered (ok none) elapsed later (inl late) = rw (late) (_, refl)
    turn-Answered (ok none) elapsed later (inr (a, p)) =
        elim (Bool-cases (leb config.timeout elapsed)) [
          | inl q ↦ rw (q) (_, refl)
          | inr q ↦ rw (q) (a, p)
        ]

    poll-Answered :
        (fuel k : ℕ)
        → config.timeout ≤ host.elapsed k + 25 * fuel
        → Answered (poll config host (suc fuel) k)
    unfolding poll
    poll-Answered zero k h =
        turn-Answered (host.try_wait k) (host.elapsed k) none (inl (ground (arith, h)))
    poll-Answered (suc fuel) k h =
        turn-Answered (host.try_wait k) (host.elapsed k) (poll config host (suc fuel) (suc k))
          (inr (poll-Answered fuel (suc k) (omega (arith, h, timed k))))

    watch-Answered : Answered (watch config host (poll_fuel config))
    unfolding watch
    watch-Answered =
        let (answer, p) = poll-Answered (suc (config.timeout / 25)) 0 (omega arith) in
        rw (p, watch) (_, refl)

    then_steps-Answered :
        (steps : List Step) (o : Option Outcome)
        → Answered o
        → Answered (then_steps config host steps o)
    then_steps-Answered steps o (outcome, p) = rw (p) (_, refl)

    spawn_child-Answered :
        (failure : Option String) → Answered (spawn_child config host (poll_fuel config) failure)
    unfolding spawn_child
    spawn_child-Answered (some error) = (_, refl)
    spawn_child-Answered none =
        then_steps-Answered (started (configure_cargo_environment_from host.vars_os) ∷ [])
          (watch config host (poll_fuel config)) watch-Answered

    capture_stderr-Answered :
        (failure : Option String) → Answered (capture_stderr config host (poll_fuel config) failure)
    unfolding capture_stderr
    capture_stderr-Answered (some error) = (_, refl)
    capture_stderr-Answered none =
        then_steps-Answered (created_stderr ∷ [])
          (spawn_child config host (poll_fuel config) host.spawn) (spawn_child-Answered host.spawn)

    capture_stdout-Answered :
        (failure : Option String) → Answered (capture_stdout config host (poll_fuel config) failure)
    unfolding capture_stdout
    capture_stdout-Answered (some error) = (_, refl)
    capture_stdout-Answered none =
        then_steps-Answered (created_stdout ∷ [])
          (capture_stderr config host (poll_fuel config) host.create_stderr)
          (capture_stderr-Answered host.create_stderr)

    compare_snapshot-Answered :
        (expected : String) (computed : Result String String)
        → Answered (compare_snapshot config host (poll_fuel config) expected computed)
    unfolding compare_snapshot start_run
    compare_snapshot-Answered expected (err error) = (_, refl)
    compare_snapshot-Answered expected (ok found) = elim (Bool-cases (found == expected)) [
      | inl p ↦ rw (p, start_run) (capture_stdout-Answered host.create_stdout)
      | inr p ↦ rw (p) (_, refl)
    ]

    run_on-Answered :
        (expected : String) (copied : Result (Entries × Entries) String)
        → Answered (run_on config host (poll_fuel config) expected copied)
    unfolding run_on
    run_on-Answered expected (err error) = (_, refl)
    run_on-Answered expected (ok copied) = compare_snapshot-Answered expected (
        compute_workspace_fingerprint host.destination.path host.utf8 host.sha256
          (host.reading copied))

    -- Where every turn of the loop takes its 25 milliseconds, a run returns: the child is polled
    -- until it exits, or until the configured timeout has passed, for which a poll every 25
    -- milliseconds and two more are enough.
    pub run-Answered :
        (expected_fingerprint : String)
        → (outcome : Outcome) × (run config host (poll_fuel config) expected_fingerprint
            ≡ some outcome)
    unfolding run
    run-Answered expected_fingerprint =
        run_on-Answered expected_fingerprint (create host.workspace host.destination host.root)
