-- ===== src/Gateway/Admin.antt =====
-- `handle_admin_command_with_config`: what an operator's command does.
pub mod Approval
pub mod Own
pub mod Once
use zyguor_agent_execution_g.Base.{ℕ, String, ◌<>◌, Option, none, some, Result, ok, err, ok_or}
use zyguor_agent_execution_g.Execution.{
  HttpMethod, get, post, HttpRequestArguments, ExecutionRequest, add, read_file, write_file,
  git_status, run_cargo_test, http_request,
}
use zyguor_agent_execution_g.Config.{GatewayConfig}
use zyguor_agent_execution_g.PendingReview.{PendingReview}
use zyguor_agent_execution_g.PendingReview.Store.{
  ConsumeClaimedFailure, not_committed, durability_uncertain, get_claimed, claim,
}
use zyguor_agent_execution_g.Gateway.Types.{
  CargoTestResult, HttpExecutionResult, ExecutionResult, text, integer, ReviewedOperationResult,
  ReviewedExecutionOutcome, success_with_result, execution_failed, execution_failed_with_result,
  AdminCommand, approve, reject, acknowledge_claimed, AdminOutcome, approved, rejected,
  claimed_acknowledged, claimed_acknowledgement_durability_uncertain, write_failed,
  cargo_test_completed, cargo_test_failed, cargo_test_execution_failed, http_post_completed,
  http_post_failed, http_post_execution_failed,
}
use zyguor_agent_execution_g.Gateway.Evaluate.{revalidate_pending_request_with_config}
use zyguor_agent_execution_g.Gateway.World.{
  Env, World, Exec, tick, lift, ◌>>=◌, ◌>>◌, attempt, map_failure, with_store, persist_audit_locked,
  operate,
}
use zyguor_agent_execution_g.Gateway.Audit.{
  write_reconciliation_audit, reject_pending_request, inspect_pending_request,
  consume_claimed_request, audit_claimed_approval, audit_claimed_rejection,
}
use zyguor_agent_execution_g.Gateway.Review.{execute_claimed_reviewed_action, execute_claimed_write}
use zyguor_agent_execution_g.Gateway.Action.{
  execute_cargo_test_with_config, execute_http_post_with_config,
}

unfoldable pub write_outcome : ℕ → ReviewedExecutionOutcome → Result AdminOutcome String
write_outcome request_id ReviewedExecutionOutcome.success = ok (approved request_id)
write_outcome request_id (success_with_result result) =
    err "write approval returned an unexpected execution result"
write_outcome request_id (execution_failed error) = ok (write_failed request_id error)
write_outcome request_id (execution_failed_with_result error result) =
    err "write approval returned an unexpected execution result"
write_outcome request_id (ReviewedExecutionOutcome.completion_audit_failed outcome error result) =
    ok (AdminOutcome.completion_audit_failed request_id outcome error none)

unfoldable pub cargo_test_outcome : ℕ → ReviewedExecutionOutcome → Result AdminOutcome String
cargo_test_outcome request_id (success_with_result (ExecutionResult.cargo_test result)) =
    ok (cargo_test_completed request_id result)
cargo_test_outcome request_id
      (execution_failed_with_result error (ExecutionResult.cargo_test result)) =
    ok (cargo_test_failed request_id result)
cargo_test_outcome request_id (execution_failed error) =
    ok (cargo_test_execution_failed request_id error)
cargo_test_outcome request_id
      (ReviewedExecutionOutcome.completion_audit_failed outcome error result) =
    ok (AdminOutcome.completion_audit_failed request_id outcome error result)
cargo_test_outcome request_id ReviewedExecutionOutcome.success =
    err "cargo test approval returned no execution result"
cargo_test_outcome request_id _ = err "cargo test approval returned an unexpected execution result"

unfoldable pub http_post_outcome : ℕ → ReviewedExecutionOutcome → Result AdminOutcome String
http_post_outcome request_id (success_with_result (ExecutionResult.http result)) =
    ok (http_post_completed request_id result)
http_post_outcome request_id (execution_failed_with_result error (ExecutionResult.http result)) =
    ok (http_post_failed request_id result)
http_post_outcome request_id (execution_failed error) =
    ok (http_post_execution_failed request_id error)
http_post_outcome request_id
      (ReviewedExecutionOutcome.completion_audit_failed outcome error result) =
    ok (AdminOutcome.completion_audit_failed request_id outcome error result)
http_post_outcome request_id ReviewedExecutionOutcome.success =
    err "HTTP POST approval returned no execution result"
http_post_outcome request_id _ = err "HTTP POST approval returned an unexpected execution result"

module _ (env : Env) (config : GatewayConfig) where
  unfoldable pub execute_write :
      ℕ → PendingReview → (path content : String) → Exec String AdminOutcome
  unfolding write_outcome operate
  execute_write request_id claimed path content = do
    outcome ←
        execute_claimed_write env claimed (persist_audit_locked env)
          (operate env claimed.request_id λ now. (env.filesystem now).write_text_file path content)
    lift (write_outcome request_id outcome)

  unfoldable pub execute_cargo_test : ℕ → PendingReview → Exec String AdminOutcome
  unfolding cargo_test_outcome operate
  execute_cargo_test request_id claimed = do
    expected_fingerprint ← lift (
        ok_or claimed.workspace_fingerprint
          "approved Cargo test review is missing workspace fingerprint")
    outcome ← execute_claimed_reviewed_action env claimed (persist_audit_locked env) (
        operate env claimed.request_id
          λ now. execute_cargo_test_with_config (env.cargo_test now expected_fingerprint))
    lift (cargo_test_outcome request_id outcome)

  unfoldable pub execute_http :
      ℕ → PendingReview → HttpRequestArguments → HttpMethod → Exec String AdminOutcome
  unfolding http_post_outcome operate
  execute_http request_id claimed arguments get =
      lift (err "claimed request is not eligible for approval")
  execute_http request_id claimed arguments post = do
    outcome ← execute_claimed_reviewed_action env claimed (persist_audit_locked env) (
        operate env claimed.request_id
          λ now. execute_http_post_with_config env.url (env.http now) arguments config)
    lift (http_post_outcome request_id outcome)

  -- The `match` on the claimed request.
  unfoldable pub execute_approved : ℕ → PendingReview → ExecutionRequest → Exec String AdminOutcome
  unfolding execute_write execute_cargo_test execute_http
  execute_approved request_id claimed (write_file arguments) =
      execute_write request_id claimed arguments.path arguments.content
  execute_approved request_id claimed run_cargo_test = execute_cargo_test request_id claimed
  execute_approved request_id claimed (http_request arguments) =
      execute_http request_id claimed arguments arguments.method
  execute_approved request_id claimed (add arguments) =
      lift (err "claimed request is not eligible for approval")
  execute_approved request_id claimed (read_file arguments) =
      lift (err "claimed request is not eligible for approval")
  execute_approved request_id claimed git_status =
      lift (err "claimed request is not eligible for approval")

  unfoldable pub revalidate : PendingReview → Exec String (Unit {0})
  revalidate pending w =
      (revalidate_pending_request_with_config env.url pending (env.filesystem w.now) config, tick w)

  unfoldable pub handle_approve : ℕ → Exec String AdminOutcome
  unfolding revalidate execute_approved inspect_pending_request with_store audit_claimed_approval
  handle_approve request_id = do
    pending ← inspect_pending_request env request_id
    revalidate pending
    claimed ←
        with_store env "pending review store lock poisoned" (λ io. claim env.json io request_id)
    audit_claimed_approval env claimed (persist_audit_locked env)
    execute_approved request_id claimed claimed.request

  unfoldable pub handle_reject : ℕ → Exec String AdminOutcome
  unfolding reject_pending_request audit_claimed_rejection
  handle_reject request_id = do
    pending ← reject_pending_request env request_id
    audit_claimed_rejection env pending (persist_audit_locked env)
    lift (ok (rejected pending))

  unfoldable pub acknowledge_result :
      ℕ → Result PendingReview ConsumeClaimedFailure → Result AdminOutcome String
  acknowledge_result request_id (ok acknowledged) = ok (claimed_acknowledged acknowledged)
  acknowledge_result request_id (err (not_committed error)) =
      err ("reconciliation audit succeeded but claimed request was not consumed: " <> error)
  acknowledge_result request_id (err (durability_uncertain error)) =
      ok (claimed_acknowledgement_durability_uncertain request_id error)

  unfoldable pub handle_acknowledge : ℕ → Exec String AdminOutcome
  unfolding with_store write_reconciliation_audit acknowledge_result consume_claimed_request
  handle_acknowledge request_id = do
    claimed ←
        with_store env "pending review store lock poisoned"
          (λ io d. (ok_or (get_claimed request_id d.store) "claimed review request not found", d))
    write_reconciliation_audit env claimed (persist_audit_locked env)
    attempt (consume_claimed_request env request_id)
        (λ consumed. lift (acknowledge_result request_id consumed))

  unfoldable pub handle_admin_command_with_config : AdminCommand → Exec String AdminOutcome
  unfolding handle_approve handle_reject handle_acknowledge
  handle_admin_command_with_config (approve request_id) = handle_approve request_id
  handle_admin_command_with_config (reject request_id) = handle_reject request_id
  handle_admin_command_with_config (acknowledge_claimed request_id) = handle_acknowledge request_id
