-- ===== src/Gateway/Audit.antt =====
-- The audit of the reviewed path: `AuditRecord::new` of src/audit.rs, the three records of an operator's decision,
-- and what becomes of a claimed request when its record cannot be written.
pub mod Records
use zyguor_agent_execution_g.Base.{ℕ, String, ◌<>◌, ok, err, ok_or}
use zyguor_agent_execution_g.Policy.{PolicyDecision, review, PolicyReason}
use zyguor_agent_execution_g.PendingReview.{PendingReview}
use zyguor_agent_execution_g.PendingReview.Store.{
  ConsumeClaimedFailure, not_committed, display_consume, get, claim, restore_claimed,
  consume_claimed_classified,
}
use zyguor_agent_execution_g.Gateway.Types.{
  AuditRecord, AuditPhase, approval, rejection, reconciliation, ExecutionOutcome, not_executed,
  unknown,
}
use zyguor_agent_execution_g.Gateway.Evaluate.{review_reason_for_request}
use zyguor_agent_execution_g.Gateway.World.{
  Env, Exec, tick, lift, ◌>>=◌, ◌>>◌, attempt, map_failure, with_store,
}

module _ (env : Env) where
  -- `AuditRecord::new`
  unfoldable pub new_record :
      ℕ
      → String
      → PolicyDecision
      → PolicyReason
      → AuditPhase
      → ExecutionOutcome
      → Exec String AuditRecord
  new_record request_id message decision reason phase execution_outcome w = elim (env.clock w.now) [
    | err error ↦ (err error, tick w)
    | ok timestamp_unix ↦ (
      ok (record {
        request_id = request_id;
        timestamp_unix = timestamp_unix;
        message = message;
        phase = phase;
        decision = decision;
        reason = reason;
        execution_outcome = execution_outcome;
      }),
      tick w,
    )
  ]

  -- The three writers differ in the phase, the outcome and their messages.
  unfoldable pub write_decision_audit :
      (name : String)
      → AuditPhase
      → ExecutionOutcome
      → PendingReview
      → (AuditRecord → Exec String (Unit {0}))
      → Exec String (Unit {0})
  unfolding new_record
  write_decision_audit name phase execution_outcome pending audit_writer = do
    reason ← lift (review_reason_for_request pending.request)
    made ←
        map_failure (λ error. "failed to create " <> name <> " audit record: " <> error)
          (new_record pending.request_id pending.purpose review reason phase execution_outcome)
    map_failure (λ error. "failed to persist " <> name <> " audit: " <> error) (audit_writer made)

  unfoldable pub write_approval_audit :
      PendingReview → (AuditRecord → Exec String (Unit {0})) → Exec String (Unit {0})
  unfolding write_decision_audit
  write_approval_audit = write_decision_audit "approval" approval not_executed

  unfoldable pub write_rejection_audit :
      PendingReview → (AuditRecord → Exec String (Unit {0})) → Exec String (Unit {0})
  unfolding write_decision_audit
  write_rejection_audit = write_decision_audit "rejection" rejection not_executed

  unfoldable pub write_reconciliation_audit :
      PendingReview → (AuditRecord → Exec String (Unit {0})) → Exec String (Unit {0})
  unfolding write_decision_audit
  write_reconciliation_audit = write_decision_audit "reconciliation" reconciliation unknown

  unfoldable pub reject_pending_request : ℕ → Exec String PendingReview
  unfolding with_store
  reject_pending_request request_id =
      with_store env "pending review store lock poisoned" (λ io. claim env.json io request_id)

  unfoldable pub inspect_pending_request : ℕ → Exec String PendingReview
  unfolding with_store
  inspect_pending_request request_id =
      with_store env "pending review store lock poisoned"
        (λ io d. (ok_or (get request_id d.store) "pending review request not found", d))

  unfoldable pub restore_claimed_request : PendingReview → Exec String (Unit {0})
  unfolding with_store
  restore_claimed_request pending =
      with_store env "pending review store lock poisoned"
        (λ io. restore_claimed env.json io pending)

  unfoldable pub consume_claimed_request : ℕ → Exec ConsumeClaimedFailure PendingReview
  unfolding with_store
  consume_claimed_request request_id =
      with_store env (not_committed "pending review store lock poisoned")
        (λ io. consume_claimed_classified env.json io request_id)

  -- The claimed request is restored and the error reported.
  unfoldable pub restore_after : {A : Type 0} → PendingReview → String → Exec String A
  unfolding restore_claimed_request
  restore_after claimed failure = do
    map_failure (λ error. failure <> "; failed to restore claimed request: " <> error)
        (restore_claimed_request claimed)
    lift (err failure)

  unfoldable pub audit_claimed_approval :
      PendingReview → (AuditRecord → Exec String (Unit {0})) → Exec String (Unit {0})
  unfolding write_approval_audit restore_after
  audit_claimed_approval claimed audit_writer =
      attempt (write_approval_audit claimed audit_writer) λ written. elim written [
        | err audit_error ↦ restore_after claimed audit_error
        | ok u ↦ lift (ok tt)
      ]

  unfoldable pub audit_claimed_rejection :
      PendingReview → (AuditRecord → Exec String (Unit {0})) → Exec String (Unit {0})
  unfolding write_rejection_audit restore_after consume_claimed_request
  audit_claimed_rejection claimed audit_writer =
      attempt (write_rejection_audit claimed audit_writer) λ written. elim written [
        | err audit_error ↦ restore_after claimed audit_error
        | ok u ↦ do
          consumed ←
              map_failure
                (λ failure.
                  "rejection audit succeeded but failed to consume claimed request: "
                  <> display_consume failure)
                (consume_claimed_request claimed.request_id)
          lift (ok tt)
      ]
