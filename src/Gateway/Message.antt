-- ===== src/Gateway/Message.antt =====
-- `execute_message_with_audit_id`: the agent's request between its two audit records, and the
-- response to the agent.
pub mod Gated
use zyguor_agent_execution_g.Base.{
  ℕ, String, ◌<>◌, Bool, true, false, Option, none, some, Result, ok, err, ltb, len, fail_if,
  is_err, map_err, if◌then◌else◌,
}
use zyguor_agent_execution_g.Base.Text.{trim, is_empty}
use zyguor_agent_execution_g.Policy.{
  PolicyDecision, allow, review, block, PolicyReason, PolicyEvaluation,
}
use zyguor_agent_execution_g.Gateway.Types.{
  ExecutionResult, AuditRecord, pre_execution, completion, ExecutionOutcome, failed, not_executed,
  unknown, GatewayResponse,
}
use zyguor_agent_execution_g.Gateway.World.{
  Env, World, Exec, lift, ◌>>=◌, ◌>>◌, attempt, map_failure,
}
use zyguor_agent_execution_g.Gateway.Audit.{new_record}
use zyguor_agent_execution_g.Gateway.Review.{AuditWriter}

abbrev pub max_message_length : ℕ
max_message_length = 4096

-- `serde_json::to_string` of a response.
pub record Encoding : Type 0 where
  pub response_json : GatewayResponse → Result String String

unfoldable pub validate_message : String → Result (Unit {0}) String
validate_message message =
    if is_empty (trim message)
    then err "message cannot be empty"
    else if ltb max_message_length (len message)
    then err "message exceeds maximum length of 4096 bytes"
    else ok tt

-- The tuple `(status, executed, result, execution_outcome)`.
pub record Handled : Type 0 where
  pub status : String
  pub executed : Bool
  pub result : Option ExecutionResult
  pub execution_outcome : ExecutionOutcome

unfoldable pub ran : Result ExecutionResult String → Handled
ran (ok result) = record {
  status = "executed";
  executed = true;
  result = some result;
  execution_outcome = ExecutionOutcome.success;
}
ran (err error) = record {
  status = "execution_failed";
  executed = false;
  result = none;
  execution_outcome = failed;
}

unfoldable pub not_run : String → Handled
not_run status = record {
  status = status;
  executed = false;
  result = none;
  execution_outcome = not_executed;
}

-- The status when the completion audit failed.
unfoldable pub status_audit_failed : Handled → ExecutionOutcome → String
status_audit_failed handled ExecutionOutcome.success = "execution_completed_audit_failed"
status_audit_failed handled failed = "execution_failed_audit_failed"
status_audit_failed handled not_executed = handled.status
status_audit_failed handled unknown = "execution_unknown_audit_failed"

module _ (env : Env) (encoding : Encoding) where
  unfoldable pub handle_decision :
      ℕ
      → String
      → PolicyEvaluation
      → AuditWriter
      → Exec String ExecutionResult
      → PolicyDecision
      → Exec String Handled
  unfolding ran not_run new_record
  handle_decision request_id message evaluation audit_writer sandbox_runner allow = do
    pre_execution_record ←
        map_failure (λ error. "failed to create pre-execution audit record: " <> error)
          (new_record env request_id message evaluation.decision evaluation.reason pre_execution
            not_executed)
    map_failure (λ error. "failed to persist pre-execution audit: " <> error)
        (audit_writer pre_execution_record)
    attempt sandbox_runner (λ done. lift (ok (ran done)))
  handle_decision request_id message evaluation audit_writer sandbox_runner review =
      lift (ok (not_run "held_for_review"))
  handle_decision request_id message evaluation audit_writer sandbox_runner block =
      lift (ok (not_run "blocked"))

  unfoldable pub respond :
      ℕ → PolicyEvaluation → Handled → (completion_audit_failed : Bool) → Result String String
  unfolding status_audit_failed
  respond request_id evaluation handled completion_audit_failed =
      map_err (λ error. "failed to serialize gateway response: " <> error)
        (encoding.response_json (record {
          request_id = request_id;
          status =
              if completion_audit_failed
              then status_audit_failed handled handled.execution_outcome
              else handled.status;
          decision = evaluation.decision;
          reason = evaluation.reason;
          executed = handled.executed;
          result = handled.result;
          execution_outcome = handled.execution_outcome;
        }))

  unfoldable pub execute_message_with_audit_id :
      ℕ → String → PolicyEvaluation → AuditWriter → Exec String ExecutionResult → Exec String String
  unfolding validate_message handle_decision respond
  execute_message_with_audit_id request_id message evaluation audit_writer sandbox_runner = do
    lift (validate_message message)
    handled ←
        handle_decision request_id message evaluation audit_writer sandbox_runner
          evaluation.decision
    audit_record ←
        map_failure (λ error. "failed to create audit record: " <> error)
          (new_record env request_id message evaluation.decision evaluation.reason completion
            handled.execution_outcome)
    attempt (audit_writer audit_record)
        (λ written. lift (respond request_id evaluation handled (is_err written)))
