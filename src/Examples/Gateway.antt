-- ===== src/Examples/Gateway.antt =====
-- The theorems on the gateway, in a world where the test run waits.
use zyguor_agent_execution_g.Base.{
  ℕ, ◌+◌, String, ◌≡◌, refl, ◌≢◌, ◌↔◌, ◌⊎◌, true, false, none, some, [], ◌∷◌, Result, ok, err,
}
use zyguor_agent_execution_g.Base.Assoc.{lookup}
use zyguor_agent_execution_g.Base.Text.{trim, is_empty, to_ascii_lowercase}
use zyguor_agent_execution_g.Execution.{ExecutionRequest}
use zyguor_agent_execution_g.Policy.{
  evaluate_operation_with_config, PolicyReason, PolicyDecision, PolicyEvaluation,
}
use zyguor_agent_execution_g.Config.{default_config}
use zyguor_agent_execution_g.Config.Bounds.{IsValid, validate_iff}
use zyguor_agent_execution_g.PendingReview.{PendingReview}
use zyguor_agent_execution_g.PendingReview.State.{Reviews}
use zyguor_agent_execution_g.PendingReview.Disk.{no_faults}
use zyguor_agent_execution_g.PendingReview.Store.{Durable, get, persist, insert_review}
use zyguor_agent_execution_g.Gateway.Types.{
  ExecuteParams, ExecutionResult, CargoTestResult, ReviewedOperationResult,
}
use zyguor_agent_execution_g.Gateway.Evaluate.{
  FileSystem, evaluate_request_with_config, review_reason_for_request,
  revalidate_pending_request_with_config,
}
use zyguor_agent_execution_g.Gateway.Evaluate.Gated.{
  IsCurrent, evaluate-gated, evaluate-review, revalidate_iff,
}
use zyguor_agent_execution_g.Gateway.Request.{build_execution_request}
use zyguor_agent_execution_g.Gateway.Request.Built.{IsBuilt, build_execution_request-IsBuilt}
use zyguor_agent_execution_g.Gateway.World.{Env, World, tick, persist_audit_locked, operate}
use zyguor_agent_execution_g.Gateway.Review.{execute_reviewed_action, execute_claimed}
use zyguor_agent_execution_g.Gateway.Review.Trace.{Refused, Ran, execute_reviewed_action-Ran}
use zyguor_agent_execution_g.Gateway.Review.Claimed.{operations, execute_claimed-operations}
use zyguor_agent_execution_g.Gateway.Admin.{handle_approve}
use zyguor_agent_execution_g.Gateway.Admin.Own.{Did, IsOwn}
use zyguor_agent_execution_g.Gateway.Admin.Once.{handle_approve-once}
use zyguor_agent_execution_g.Gateway.Message.{Encoding, execute_message_with_audit_id}
use zyguor_agent_execution_g.Gateway.Message.Gated.{execute_message-operations}
use zyguor_agent_execution_g.Gateway.Execute.{Runners, hold, queue, execute_request_with_config}
use zyguor_agent_execution_g.Gateway.Execute.Gated.{execute_request-gated}
use zyguor_agent_execution_g.Gateway.Execute.Blank.{execute_request-blank}
use zyguor_agent_execution_g.Examples.{test_run, json, library, waiting_store}
use zyguor_agent_execution_g.Examples.Config.{accepted}

default-IsValid : IsValid library default_config
default-IsValid = (validate_iff library default_config).0 accepted

-- A workspace with the fingerprint "f0".
abbrev workspace : FileSystem
workspace = record {
  resolve_existing_path = λ path. ok [];
  resolve_write_target = λ path. ok [];
  revalidate_write_target = λ path. ok [];
  capture_write_target_state = λ path. err "no such file";
  write_text_file = λ path content. ok tt;
  compute_workspace_fingerprint = ok "f0";
}

abbrev passed : CargoTestResult
passed = record {
  success = true;
  exit_code = some 0;
  timed_out = false;
  stdout = "";
  stderr = "";
  stdout_truncated = false;
  stderr_truncated = false;
  duration_ms = 12;
}

-- Everything outside succeeds but the HTTP client.
abbrev pub env : Env
env = record {
  json = json;
  url = library;
  save = λ n. no_faults;
  clock = λ n. ok n;
  store_poisoned = λ n. false;
  audit_poisoned = λ n. false;
  sink = λ n r. none;
  filesystem = λ n. workspace;
  cargo_test = λ n fingerprint. ok passed;
  http = λ n method destination body. err "unreachable";
}

abbrev encoding : Encoding
encoding = record { response_json = λ response. ok response.status }

abbrev runners : Runners
runners = record {
  execute_add = λ n arguments. ok 3;
  read_text_file = λ n path. ok "content";
  git_status_json = λ n. ok "{}";
  new_v4 = λ n. 40 + n;
}

abbrev store_with : (m : Reviews) → Durable
store_with m = record {
  store = record { maps = m; persistence_path = none; persistence_parent = none };
  disk = record { state_file = none; temporary_file = none };
}

abbrev pub world : World
world = record { durable = store_with waiting_store; journal = []; now = 0 }

abbrev test_params : (purpose : String) → ExecuteParams
test_params purpose = record {
  operation = "run_cargo_test";
  arguments = record {
    left = none;
    right = none;
    path = none;
    content = none;
    method = none;
    url = none;
    body = none;
  };
  purpose = purpose;
}

built :
    (purpose : String)
    → build_execution_request (test_params purpose) ≡ ok ExecutionRequest.run_cargo_test
unfolding build_execution_request to_ascii_lowercase trim
built purpose = refl

execute_request-gated_example :
    operations
      (execute_request_with_config env encoding runners default_config
        (test_params "check")
        world).1.journal
    ≡ operations []
execute_request-gated_example =
    execute_request-gated env encoding runners default_config (test_params "check")
      ExecutionRequest.run_cargo_test world default-IsValid (built "check") tt

handle_approve-once_example :
    let w' = (handle_approve env default_config 7 world).1 in
    (operations w'.journal ≡ operations [])
    ⊎ ((pending : PendingReview) × (get 7 world.durable.store ≡ some pending)
        × (revalidate_pending_request_with_config library pending workspace default_config ≡ ok tt)
        × (operations w'.journal ≡ pending.request_id ∷ operations [])
        × (get 7 w'.durable.store ≡ none)
        × (name : String) × (operation : ℕ → Did) × IsOwn env default_config pending pending.request
            operation
        × (before : World) × (w'
            ≡ (execute_claimed env name pending
                (persist_audit_locked env)
                (operate env pending.request_id operation)
                before).1))
handle_approve-once_example = handle_approve-once env default_config 7 world

abbrev passes : ℕ → Result ReviewedOperationResult String
passes now = ok (ReviewedOperationResult.success (some (ExecutionResult.cargo_test passed)))

execute_reviewed_action-Ran_example :
    let done =
      execute_reviewed_action env test_run
        (persist_audit_locked env)
        (operate env 7 passes)
        world in
    Refused world done ⊎ Ran test_run 7 passes world done
execute_reviewed_action-Ran_example = execute_reviewed_action-Ran env test_run 7 passes world

execute_claimed-operations_example :
    let w' =
      (execute_claimed env "reviewed operation" test_run
        (persist_audit_locked env)
        (operate env 7 passes)
        world).1 in
    (operations w'.journal ≡ operations [])
    ⊎ ((operations w'.journal ≡ 7 ∷ operations [])
        × (w'.durable.store.reviews ≡ world.durable.store.reviews))
execute_claimed-operations_example =
    execute_claimed-operations env "reviewed operation" test_run 7 passes world

abbrev allowed : PolicyEvaluation
allowed = record { decision = PolicyDecision.allow; reason = PolicyReason.safe }

abbrev added : ℕ → Result ExecutionResult String
added now = ok (ExecutionResult.integer 3)

execute_message-operations_example :
    let w' =
      (execute_message_with_audit_id env encoding 9 "sum" allowed
        (persist_audit_locked env)
        (operate env 9 added)
        world).1 in
    (operations w'.journal ≡ operations [])
    ⊎ ((PolicyDecision.allow ≡ PolicyDecision.allow) × (operations w'.journal ≡ 9 ∷ operations []))
execute_message-operations_example =
    execute_message-operations env encoding 9 "sum" allowed added world

revalidate_iff_example :
    (revalidate_pending_request_with_config library test_run workspace default_config ≡ ok tt)
    ↔ IsCurrent library workspace default_config test_run ExecutionRequest.run_cargo_test
revalidate_iff_example = revalidate_iff library test_run workspace default_config

evaluate-gated_example :
    (evaluate_request_with_config library ExecutionRequest.run_cargo_test workspace
      default_config).decision
    ≢ PolicyDecision.allow
evaluate-gated_example =
    evaluate-gated library workspace default_config default-IsValid ExecutionRequest.run_cargo_test
      tt

reviewed :
    (evaluate_request_with_config library ExecutionRequest.run_cargo_test workspace
      default_config).decision
    ≡ PolicyDecision.review
unfolding evaluate_request_with_config evaluate_operation_with_config
reviewed = refl

evaluate-review_example :
    review_reason_for_request ExecutionRequest.run_cargo_test
    ≡ ok
        (evaluate_request_with_config library ExecutionRequest.run_cargo_test workspace
          default_config).reason
evaluate-review_example =
    evaluate-review library workspace default_config default-IsValid ExecutionRequest.run_cargo_test
      reviewed

build_execution_request-IsBuilt_example : IsBuilt ExecutionRequest.run_cargo_test
build_execution_request-IsBuilt_example =
    build_execution_request-IsBuilt (test_params "check") ExecutionRequest.run_cargo_test
      (built "check")

queued :
    (queue env encoding runners default_config 40 "  " ExecutionRequest.run_cargo_test
      (tick world)).0
    ≡ ok tt
unfolding queue insert_review lookup persist
queued = refl

blank : is_empty (trim "  ") ≡ true
unfolding is_empty trim
blank = refl

execute_request-blank_example :
    ((execute_request_with_config env encoding runners default_config (test_params "  ") world).0
      ≡ err "message cannot be empty")
    × ((pending : PendingReview) × (hold env encoding runners default_config 40 "  " workspace
            ExecutionRequest.run_cargo_test
          ≡ ok pending)
        × (get pending.request_id
              (execute_request_with_config env encoding runners default_config
                (test_params "  ")
                world).1.durable.store
            ≡ some pending))
execute_request-blank_example =
    execute_request-blank env encoding runners default_config (test_params "  ")
      ExecutionRequest.run_cargo_test world (built "  ") reviewed blank queued
