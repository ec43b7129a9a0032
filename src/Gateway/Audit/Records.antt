-- ===== src/Gateway/Audit/Records.antt =====
-- What the audit calls of src/main.rs make, store and answer, case by case.
use zyguor_agent_execution_g.Base.{
  ℕ, String, ◌≡◌, refl, ◌⊎◌, inl, inr, Bool-cases, none, some, Option-cases, List, [], ◌∷◌, ◌++◌,
  ok, err, Result-cases,
}
use zyguor_agent_execution_g.Policy.{review, PolicyReason}
use zyguor_agent_execution_g.PendingReview.{PendingReview}
use zyguor_agent_execution_g.Gateway.Types.{AuditRecord, AuditPhase, ExecutionOutcome}
use zyguor_agent_execution_g.Gateway.Evaluate.{review_reason_for_request}
use zyguor_agent_execution_g.Gateway.World.{Event, offered, World, Env, tick, persist_audit_locked}
use zyguor_agent_execution_g.Gateway.Audit.{new_record}

-- The world after events and calls that leave the store alone.
abbrev pub later : World → List Event → ℕ → World
later w events now = record w { journal = events ++ w.journal; now = now }

-- The record is of the request, and of this phase and outcome.
pub record IsRecordOf (pending : PendingReview) (phase : AuditPhase) (outcome : ExecutionOutcome)
    (r : AuditRecord) : Type 0 where
  pub id : r.request_id ≡ pending.request_id
  pub phased : r.phase ≡ phase
  pub decided : r.decision ≡ review
  pub reasoned : review_reason_for_request pending.request ≡ ok r.reason
  pub executed : r.execution_outcome ≡ outcome

-- No record was stored: none was offered, or the one that was offered was refused.
abbrev pub Declined : List Event → Type 0
Declined events =
    (events ≡ []) ⊎ ((r : AuditRecord) × (error : String) × (events ≡ offered r (some error) ∷ []))

-- The record that `new_record` makes at a time.
abbrev pub record_at :
    PendingReview → PolicyReason → AuditPhase → ExecutionOutcome → ℕ → AuditRecord
record_at pending reason phase outcome timestamp_unix = record {
  request_id = pending.request_id;
  timestamp_unix = timestamp_unix;
  message = pending.purpose;
  phase = phase;
  decision = review;
  reason = reason;
  execution_outcome = outcome;
}

pub record_at-IsRecordOf :
    (pending : PendingReview) (reason : PolicyReason) (phase : AuditPhase)
    (outcome : ExecutionOutcome) (t : ℕ)
    → review_reason_for_request pending.request ≡ ok reason
    → IsRecordOf pending phase outcome (record_at pending reason phase outcome t)
record_at-IsRecordOf pending reason phase outcome t h = record {
  id = refl;
  phased = refl;
  decided = refl;
  reasoned = h;
  executed = refl;
}

module _ (env : Env) where
  pub new_record-cases :
      (pending : PendingReview) (reason : PolicyReason) (phase : AuditPhase)
      (outcome : ExecutionOutcome) (w : World)
      → ((t : ℕ) × (new_record env pending.request_id pending.purpose review reason phase outcome w
            ≡ (ok (record_at pending reason phase outcome t), tick w)))
        ⊎ ((e : String) × (new_record env pending.request_id pending.purpose review reason phase
                outcome w
              ≡ (err e, tick w)))
  unfolding new_record
  new_record-cases pending reason phase outcome w = elim (Result-cases (env.clock w.now)) [
    | inl (t, p) ↦ inl (t, rw (p, new_record) refl)
    | inr (e, p) ↦ inr (e, rw (p, new_record) refl)
  ]

  pub persist-cases :
      (r : AuditRecord) (w : World)
      → (persist_audit_locked env r w ≡ (ok tt, later (tick w) (offered r none ∷ []) (tick w).now))
        ⊎ ((e : String) × (events : List Event) × ((events ≡ [])
              ⊎ (events ≡ offered r (some e) ∷ []))
            × (persist_audit_locked env r w ≡ (err e, later (tick w) events (tick w).now)))
  unfolding persist_audit_locked
  persist-cases r w = elim (Bool-cases (env.audit_poisoned w.now)) [
    | inl p ↦ inr ("audit log lock poisoned", [], inl refl, rw (p) refl)
    | inr p ↦ elim (Option-cases (env.sink w.now r)) [
      | inl q ↦ inl (rw (p, q) refl)
      | inr (e, q) ↦ inr (e, offered r (some e) ∷ [], inr refl, rw (p, q) refl)
    ]
  ]
