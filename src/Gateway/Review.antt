-- ===== src/Gateway/Review.antt =====
-- A reviewed operation between its two audit records: `execute_reviewed_action`,
-- `execute_claimed_reviewed_action`, and the two kinds of operation that it runs.
pub mod Trace
pub mod Claimed
use zyguor_agent_execution_g.Base.{
  ℕ, String, ◌<>◌, Bool, ◌&&◌, not, Option, none, some, Result, ok, err, ok_or, ltb, leb,
  if◌then◌else◌, map_err, map_ok,
}
use zyguor_agent_execution_g.Policy.{review, PolicyReason}
use zyguor_agent_execution_g.PendingReview.{PendingReview}
use zyguor_agent_execution_g.PendingReview.Store.{display_consume}
use zyguor_agent_execution_g.Gateway.Types.{
  CargoTestResult, HttpExecutionResult, ExecutionResult, ReviewedOperationResult,
  failed_with_result, AuditRecord, pre_execution, completion, ExecutionOutcome, failed,
  not_executed, ReviewedExecutionOutcome, success_with_result, execution_failed,
  execution_failed_with_result, completion_audit_failed,
}
use zyguor_agent_execution_g.Gateway.Evaluate.{review_reason_for_request}
use zyguor_agent_execution_g.Gateway.World.{
  Env, World, Exec, lift, ◌>>=◌, ◌>>◌, attempt, map_failure, map_success,
}
use zyguor_agent_execution_g.Gateway.Audit.{new_record, consume_claimed_request, restore_after}

unfoldable pub outcome_of : Result ReviewedOperationResult String → ExecutionOutcome
outcome_of (ok (ReviewedOperationResult.success result)) = ExecutionOutcome.success
outcome_of (ok (failed_with_result error result)) = failed
outcome_of (err error) = failed

unfoldable pub preserved_of : Result ReviewedOperationResult String → Option ExecutionResult
preserved_of (ok (ReviewedOperationResult.success result)) = result
preserved_of (ok (failed_with_result error result)) = some result
preserved_of (err error) = none

-- The last `match`.
unfoldable pub conclude : Result ReviewedOperationResult String → ReviewedExecutionOutcome
conclude (ok (ReviewedOperationResult.success (some result))) = success_with_result result
conclude (ok (ReviewedOperationResult.success none)) = ReviewedExecutionOutcome.success
conclude (ok (failed_with_result error result)) = execution_failed_with_result error result
conclude (err error) = execution_failed error

abbrev pub Action : Type 0
Action = Exec String ReviewedOperationResult

abbrev pub AuditWriter : Type 0
AuditWriter = AuditRecord → Exec String (Unit {0})

module _ (env : Env) where
  -- What follows the operation: from `execution_outcome` on.
  unfoldable pub complete :
      PendingReview
      → PolicyReason
      → AuditWriter
      → Result ReviewedOperationResult String
      → Exec String ReviewedExecutionOutcome
  unfolding outcome_of preserved_of conclude new_record
  complete pending reason audit_writer execution_result =
      let execution_outcome = outcome_of execution_result in
      let preserved_result = preserved_of execution_result in
      attempt
        (new_record env pending.request_id pending.purpose review reason completion
          execution_outcome)
        λ made. elim made [
          | err error ↦ lift (
              ok (
                completion_audit_failed execution_outcome
                  ("failed to create completion audit record: " <> error) preserved_result))
          | ok completion_record ↦ attempt (audit_writer completion_record) λ written.
              elim written [
                | err error ↦
                    lift (ok (completion_audit_failed execution_outcome error preserved_result))
                | ok u ↦ lift (ok (conclude execution_result))
              ]
        ]

  unfoldable pub execute_reviewed_action :
      PendingReview → AuditWriter → Action → Exec String ReviewedExecutionOutcome
  unfolding complete
  execute_reviewed_action pending audit_writer operation = do
    reason ← lift (review_reason_for_request pending.request)
    pre_execution_record ←
        map_failure (λ error. "failed to create pre-execution audit record: " <> error)
          (new_record env pending.request_id pending.purpose review reason pre_execution
            not_executed)
    map_failure (λ error. "failed to persist pre-execution audit: " <> error)
        (audit_writer pre_execution_record)
    attempt operation (complete pending reason audit_writer)

  -- `execute_claimed_reviewed_action` and `execute_claimed_write`, which differ in the first words
  -- of one message.
  unfoldable pub execute_claimed :
      (name : String) → PendingReview → AuditWriter → Action → Exec String ReviewedExecutionOutcome
  unfolding execute_reviewed_action restore_after consume_claimed_request
  execute_claimed name claimed audit_writer operation =
      attempt (execute_reviewed_action claimed audit_writer operation) λ executed. elim executed [
        | ok outcome ↦ do
          consumed ←
              map_failure
                (λ failure.
                  name
                  <> " completed but failed to consume claimed request: "
                  <> display_consume failure)
                (consume_claimed_request env claimed.request_id)
          lift (ok outcome)
        | err execution_error ↦ restore_after env claimed execution_error
      ]

  unfoldable pub execute_claimed_reviewed_action :
      PendingReview → AuditWriter → Action → Exec String ReviewedExecutionOutcome
  unfolding execute_claimed
  execute_claimed_reviewed_action = execute_claimed "reviewed operation"

  -- The write operation's `()` is made a `ReviewedOperationResult`, as `execute_approved_write` does.
  unfoldable pub execute_claimed_write :
      PendingReview → AuditWriter → Exec String (Unit {0}) → Exec String ReviewedExecutionOutcome
  unfolding execute_claimed
  execute_claimed_write claimed audit_writer write_operation =
      execute_claimed "reviewed write" claimed audit_writer
        (map_success (λ u. ReviewedOperationResult.success none) write_operation)
