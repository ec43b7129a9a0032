-- ===== src/CargoTest.antt =====
-- `CargoTestExecutor::run` of src/cargo_test.rs: `cargo test` on a snapshot of the workspace. What
-- the system answers is the record Host; what the run does to the system is a list of Steps.
pub mod Polling
pub mod Cleanup
pub mod Snapshotted
use zyguor_agent_execution_g.Base.{
  ℕ, zero, suc, String, ◌<>◌, Bool, true, false, not, ◌&&◌, Option, none, some, List, [], ◌∷◌, ◌++◌,
  Result, ok, err, map_err, ◌>>=◌, ◌>>◌, leb, ◌==◌, string_eq, if◌then◌else◌, ◌^◌, ◌/◌, ◌+◌, map_ok,
}
use zyguor_agent_execution_g.Config.{CargoTestConfig}
use zyguor_agent_execution_g.Http.Body.{Reader, read_process_output}
use zyguor_agent_execution_g.Gateway.Types.{CargoTestResult}
use zyguor_agent_execution_g.Workspace.{Bytes, Entries, Root}
use zyguor_agent_execution_g.Workspace.Fingerprint.{compute_workspace_fingerprint}
use zyguor_agent_execution_g.Workspace.Snapshot.{Destination, checked, create}

-- `ExitStatus`
pub record ExitStatus : Type 0 where
  pub success : Bool
  pub code : Option ℕ

abbrev pub Environment : Type 0
Environment = List (String × String)

pub data Step : Type 0 where
  created_stdout created_stderr : Step
  started : Environment → Step
  terminated waited : Step
  removed_stdout removed_stderr : Step

pub record Host : Type 0 where
  pub workspace : String
  pub root : Root
  pub destination : Destination
  -- What a later walk over the snapshot finds.
  pub reading : Entries × Entries → Root
  pub utf8 : String → Bytes
  pub sha256 : Bytes → Bytes
  pub from_utf8_lossy : Bytes → String
  pub create_stdout : Option String
  pub create_stderr : Option String
  pub vars_os : Environment
  pub spawn : Option String
  pub process_id : ℕ
  -- What the k-th poll answers, and the milliseconds since the start at the test that follows it.
  pub try_wait : ℕ → Result (Option ExitStatus) String
  pub elapsed : ℕ → ℕ
  -- The errors of `killpg`, with whether they are ESRCH: in the loop, and after it.
  pub killpg_timed_out : Option (Bool × String)
  pub killpg_exited : Option (Bool × String)
  pub wait : Result ExitStatus String
  pub open_stdout : Result Reader String
  pub open_stderr : Result Reader String
  -- The errors of the removals, with whether they are `NotFound`.
  pub remove_stdout : Option (Bool × String)
  pub remove_stderr : Option (Bool × String)
  pub stdout_path : String
  pub stderr_path : String
  pub duration_ms : ℕ

-- The result and the steps, or none when the fuel for polling has run out.
abbrev pub Outcome : Type 0
Outcome = Result CargoTestResult String × List Step

-- `status_result` and `timed_out` after the loop, and its steps.
abbrev pub Polled : Type 0
Polled = Result ExitStatus String × Bool × List Step

unfoldable pub terminate_process_group : ℕ → Option (Bool × String) → Result (Unit {0}) String
terminate_process_group process_id killed =
    if leb (2 ^ 31) process_id then err "cargo process ID does not fit in pid_t" else elim killed [
      | none ↦ ok tt
      | some (true, error) ↦ ok tt
      | some (false, error) ↦ err ("failed to terminate cargo process group: " <> error)
    ]

unfoldable pub remove_capture_file :
    (path : String) → Option (Bool × String) → Result (Unit {0}) String
remove_capture_file path none = ok tt
remove_capture_file path (some (true, error)) = ok tt
remove_capture_file path (some (false, error)) =
    err ("failed to remove Cargo output capture file " <> path <> ": " <> error)

unfoldable pub read_capture_file :
    (Bytes → String) → Result Reader String → ℕ → Result (String × Bool) String
read_capture_file from_utf8_lossy opened maximum_bytes =
    map_err (λ error. "failed to open Cargo output capture file: " <> error) opened >>= λ reader.
    read_process_output from_utf8_lossy reader maximum_bytes

unfoldable pub is_allowed_variable : String → List String → Bool
is_allowed_variable name [] = false
is_allowed_variable name (allowed ∷ rest) =
    let later = is_allowed_variable name rest in if name == allowed then true else later

abbrev pub allowed_environment : List String
allowed_environment = "PATH" ∷ "HOME" ∷ "CARGO_HOME" ∷ "RUSTUP_HOME" ∷ "TMPDIR" ∷ []

-- `configure_cargo_environment_from`: the variables that the command is given.
unfoldable pub configure_cargo_environment_from : Environment → Environment
unfolding is_allowed_variable
configure_cargo_environment_from [] = []
configure_cargo_environment_from ((name, value) ∷ environment) =
    let rest = configure_cargo_environment_from environment in
    if is_allowed_variable name allowed_environment then (name, value) ∷ rest else rest

module _ (config : CargoTestConfig) (host : Host) where
  -- The end of the loop on a timeout.
  unfoldable pub stop_child : Polled
  unfolding terminate_process_group
  stop_child = elim (terminate_process_group host.process_id host.killpg_timed_out) [
    | err error ↦ (err error, true, terminated ∷ [])
    | ok u ↦ (
      map_err (λ error. "failed to wait for terminated cargo test: " <> error) host.wait,
      true,
      terminated ∷ waited ∷ [],
    )
  ]

  -- One turn of the loop, on what the poll answers and the time since the start; `later` is what
  -- the loop gives after the sleep of 25 milliseconds.
  unfoldable pub poll_turn :
      Result (Option ExitStatus) String → ℕ → (later : Option Polled) → Option Polled
  unfolding stop_child
  poll_turn (ok (some status)) elapsed later = some (ok status, false, [])
  poll_turn (err error) elapsed later =
      some (err ("failed to poll cargo test process: " <> error), false, [])
  poll_turn (ok none) elapsed later = if leb config.timeout elapsed then some stop_child else later

  -- The loop, from the k-th poll on.
  unfoldable pub poll : (fuel : ℕ) → ℕ → Option Polled
  unfolding poll_turn
  poll zero k = none
  poll (suc fuel) k = poll_turn (host.try_wait k) (host.elapsed k) (poll fuel (suc k))

  -- What a run that ends with a status returns.
  unfoldable pub collect_result : ExitStatus → Bool → Result CargoTestResult String
  unfolding read_capture_file remove_capture_file
  collect_result status timed_out = do
    (stdout, stdout_truncated) ←
        read_capture_file host.from_utf8_lossy host.open_stdout config.max_stdout_bytes
    (stderr, stderr_truncated) ←
        read_capture_file host.from_utf8_lossy host.open_stderr config.max_stderr_bytes
    remove_capture_file host.stdout_path host.remove_stdout
    remove_capture_file host.stderr_path host.remove_stderr
    ok (record {
      success = status.success && not timed_out;
      exit_code = status.code;
      timed_out = timed_out;
      stdout = stdout;
      stderr = stderr;
      stdout_truncated = stdout_truncated;
      stderr_truncated = stderr_truncated;
      duration_ms = host.duration_ms;
    })

  -- From the status to the end, on every path.
  unfoldable pub conclude_run : Result ExitStatus String → Bool → Outcome
  unfolding collect_result
  conclude_run (err error) timed_out =
      (err error, terminated ∷ waited ∷ removed_stdout ∷ removed_stderr ∷ [])
  conclude_run (ok status) true = (collect_result status true, removed_stdout ∷ removed_stderr ∷ [])
  conclude_run (ok status) false =
      elim (terminate_process_group host.process_id host.killpg_exited) [
        | err error ↦ (err error, terminated ∷ [])
        | ok u ↦ (collect_result status false, terminated ∷ removed_stdout ∷ removed_stderr ∷ [])
      ]

  -- From the start of the child on.
  unfoldable pub watched : Option Polled → Option Outcome
  unfolding conclude_run
  watched none = none
  watched (some (status, timed_out, steps)) =
      let (result, more) = conclude_run status timed_out in some (result, steps ++ more)

  unfoldable pub watch : (fuel : ℕ) → Option Outcome
  unfolding poll watched
  watch fuel = watched (poll fuel 0)

  abbrev pub then_steps : List Step → Option Outcome → Option Outcome
  then_steps steps none = none
  then_steps steps (some (result, more)) = some (result, steps ++ more)

  -- The spawn, and what follows it.
  unfoldable pub spawn_child : (fuel : ℕ) → Option String → Option Outcome
  unfolding watch configure_cargo_environment_from
  spawn_child fuel (some error) =
      some (err ("failed to start cargo test: " <> error), removed_stdout ∷ removed_stderr ∷ [])
  spawn_child fuel none =
      then_steps (started (configure_cargo_environment_from host.vars_os) ∷ []) (watch fuel)

  -- The second capture file.
  unfoldable pub capture_stderr : (fuel : ℕ) → Option String → Option Outcome
  unfolding spawn_child
  capture_stderr fuel (some error) =
      some (err ("failed to create Cargo stderr capture file: " <> error), removed_stdout ∷ [])
  capture_stderr fuel none = then_steps (created_stderr ∷ []) (spawn_child fuel host.spawn)

  -- The first capture file.
  unfoldable pub capture_stdout : (fuel : ℕ) → Option String → Option Outcome
  unfolding capture_stderr
  capture_stdout fuel (some error) =
      some (err ("failed to create Cargo stdout capture file: " <> error), [])
  capture_stdout fuel none =
      then_steps (created_stdout ∷ []) (capture_stderr fuel host.create_stderr)

  unfoldable pub start_run : (fuel : ℕ) → Option Outcome
  unfolding capture_stdout
  start_run fuel = capture_stdout fuel host.create_stdout

  -- The comparison of the snapshot with what was approved.
  unfoldable pub compare_snapshot : (fuel : ℕ) → String → Result String String → Option Outcome
  unfolding start_run
  compare_snapshot fuel expected_fingerprint (err error) =
      some (err ("failed to fingerprint Cargo execution snapshot: " <> error), [])
  compare_snapshot fuel expected_fingerprint (ok snapshot_fingerprint) =
      let begun = start_run fuel in
      if snapshot_fingerprint == expected_fingerprint
      then begun
      else some (err "Cargo execution snapshot does not match approved workspace", [])

  unfoldable pub run_on : (fuel : ℕ) → String → Result (Entries × Entries) String → Option Outcome
  unfolding compare_snapshot
  run_on fuel expected_fingerprint (err error) = some (err error, [])
  run_on fuel expected_fingerprint (ok copied) = compare_snapshot fuel expected_fingerprint (
      compute_workspace_fingerprint host.destination.path host.utf8 host.sha256
        (host.reading copied))

  unfoldable pub run : (fuel : ℕ) → (expected_fingerprint : String) → Option Outcome
  unfolding run_on
  run fuel expected_fingerprint =
      run_on fuel expected_fingerprint (create host.workspace host.destination host.root)

abbrev pub steps_of : Option Outcome → List Step
steps_of none = []
steps_of (some outcome) = outcome.1

-- A turn of the loop takes 25 milliseconds at least.
abbrev pub poll_fuel : CargoTestConfig → ℕ
poll_fuel config = suc (suc (config.timeout / 25))
