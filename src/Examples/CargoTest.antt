-- ===== src/Examples/CargoTest.antt =====
-- The theorems on the run of `cargo test`, on the snapshot of a workspace with two sources.
use mathlib.Core.Path.{subst}
use zyguor_agent_execution_g.Base.{
  zero, suc, ◌*◌, ◌≡◌, refl, sym, ◌∙◌, arith, inl, inr, true, false, string_eq, none, some, List,
  [], ◌∷◌, ok,
}
use zyguor_agent_execution_g.Base.Sorting.{sort_by}
use zyguor_agent_execution_g.Config.{default_cargo_test}
use zyguor_agent_execution_g.Gateway.Types.{CargoTestResult}
use zyguor_agent_execution_g.Workspace.{Entries, display}
use zyguor_agent_execution_g.Workspace.Order.{path_leb}
use zyguor_agent_execution_g.Workspace.Fingerprint.{found_leb, compute_workspace_fingerprint}
use zyguor_agent_execution_g.Workspace.Distinct.{HasDistinctNames}
use zyguor_agent_execution_g.Workspace.Snapshot.{create, snapshot_root}
use zyguor_agent_execution_g.CargoTest.{
  Step, created_stdout, created_stderr, started, terminated, removed_stdout, removed_stderr, Host,
  Outcome, ExitStatus, run, poll_fuel, terminate_process_group,
}
use zyguor_agent_execution_g.CargoTest.Polling.{run-Answered}
use zyguor_agent_execution_g.CargoTest.Cleanup.{Cleans, run-Cleans}
use zyguor_agent_execution_g.CargoTest.Snapshotted.{run-compute_workspace_fingerprint}
use zyguor_agent_execution_g.Http.Body.{read_process_output, read_bounded, read_loop}
use zyguor_agent_execution_g.Examples.Workspace.{
  codes, digest, project, project_fingerprint, place, copy, copy-IsDistinct, ok-same, Alike-same,
  created,
}

-- A run on it: the child exits at the second poll.
abbrev exited : ExitStatus
exited = record { success = true; code = some 0 }

abbrev host : Host
host = record {
  workspace = "/w";
  root = project;
  destination = place;
  reading = snapshot_root;
  utf8 = codes;
  sha256 = digest;
  from_utf8_lossy = λ bytes. "";
  create_stdout = none;
  create_stderr = none;
  vars_os = ("PATH", "/bin") ∷ ("SECRET", "x") ∷ [];
  spawn = none;
  process_id = 100;
  try_wait = λ k. elim k [ zero ↦ ok none | suc k ↦ ok (some exited) ];
  elapsed = λ k. 25 * k;
  killpg_timed_out = none;
  killpg_exited = some (true, "no such process");
  wait = ok exited;
  open_stdout = ok [];
  open_stderr = ok [];
  remove_stdout = none;
  remove_stderr = none;
  stdout_path = "/tmp/out";
  stderr_path = "/tmp/err";
  duration_ms = 30;
}

run-Answered_example :
    (outcome : Outcome) × (run default_cargo_test host
        (poll_fuel default_cargo_test)
        project_fingerprint
      ≡ some outcome)
run-Answered_example = run-Answered default_cargo_test host (λ k. omega arith) project_fingerprint

abbrev finished : CargoTestResult
finished = record {
  success = true;
  exit_code = some 0;
  timed_out = false;
  stdout = "";
  stderr = "";
  stdout_truncated = false;
  stderr_truncated = false;
  duration_ms = 30;
}

abbrev taken : List Step
taken =
    created_stdout
    ∷ created_stderr
    ∷ started (("PATH", "/bin") ∷ [])
    ∷ terminated
    ∷ removed_stdout
    ∷ removed_stderr
    ∷ []

ran : run default_cargo_test host 2 project_fingerprint ≡ some (ok finished, taken)
unfolding run create compute_workspace_fingerprint sort_by found_leb path_leb display
    read_process_output read_bounded read_loop
ran = refl

stopped : terminate_process_group host.process_id host.killpg_exited ≡ ok tt
unfolding terminate_process_group
stopped = refl

run-Cleans_example : Cleans taken
run-Cleans_example =
    run-Cleans default_cargo_test host stopped 2 project_fingerprint (ok finished) taken ran

copied-is : (copied : Entries × Entries) → create "/w" place project ≡ ok copied → copy ≡ copied
copied-is copied h = let same = sym created ∙ h in ok-same copy copied same

run-compute_workspace_fingerprint_example :
    compute_workspace_fingerprint "/w" codes digest project ≡ ok project_fingerprint
run-compute_workspace_fingerprint_example =
    run-compute_workspace_fingerprint default_cargo_test host
      (λ copied h. (
        subst (λ c. HasDistinctNames (snapshot_root c)) (copied-is copied h) copy-IsDistinct,
        λ name. Alike-same (snapshot_root copied name),
      ))
      2 project_fingerprint (ok finished) taken (("PATH", "/bin") ∷ []) ran (inr (inr (inl refl)))
