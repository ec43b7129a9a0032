-- ===== src/Gateway/Review/Trace.antt =====
-- What the journal holds after a reviewed action.
use zyguor_agent_execution_g.Base.{
  ℕ, ◌+◌, String, ◌<>◌, ◌≡◌, refl, ◌⊎◌, inl, inr, Option, none, some, List, [], ◌∷◌, ◌++◌, Result,
  ok, err, Result-cases, arith,
}
use zyguor_agent_execution_g.Policy.{PolicyReason}
use zyguor_agent_execution_g.PendingReview.{PendingReview}
use zyguor_agent_execution_g.Gateway.Types.{
  AuditRecord, pre_execution, completion, ExecutionOutcome, not_executed, failed, ExecutionResult,
  ReviewedOperationResult, failed_with_result, ReviewedExecutionOutcome, success_with_result,
  execution_failed, execution_failed_with_result, completion_audit_failed,
}
use zyguor_agent_execution_g.Gateway.Evaluate.{review_reason_for_request}
use zyguor_agent_execution_g.Gateway.World.{
  Event, offered, operated, World, Env, tick, persist_audit_locked, operate,
}
use zyguor_agent_execution_g.Gateway.Audit.Records.{
  later, IsRecordOf, Declined, record_at, record_at-IsRecordOf, new_record-cases, persist-cases,
}
use zyguor_agent_execution_g.Gateway.Review.{
  outcome_of, preserved_of, conclude, complete, execute_reviewed_action,
}

-- The action was refused before the operation.
pub record Refused {A : Type 0} (w : World) (result : Result A String × World) : Type 0 where
  pub error : String
  pub events : List Event
  pub now : ℕ
  pub declined : Declined events
  pub returned : result ≡ (err error, later w events now)

-- Whether an operation counts as a success.
abbrev pub IsOutcome : Result ReviewedOperationResult String → ExecutionOutcome → Type 0
IsOutcome (ok (ReviewedOperationResult.success result)) outcome = outcome ≡ ExecutionOutcome.success
IsOutcome (ok (failed_with_result error result)) outcome = outcome ≡ failed
IsOutcome (err error) outcome = outcome ≡ failed

-- At most the completion record was offered after the operation.
abbrev pub Closing : PendingReview → Result ReviewedOperationResult String → List Event → Type 0
Closing pending did events =
    (events ≡ [])
    ⊎ ((r : AuditRecord) × (answer : Option String) × (outcome : ExecutionOutcome) × (events
          ≡ offered r answer ∷ [])
        × IsRecordOf pending completion outcome r
        × IsOutcome did outcome)

-- The completion record failed: the report still has the outcome, and the result if there is one.
abbrev pub LostRecord :
    ExecutionOutcome → Option ExecutionResult → ReviewedExecutionOutcome → Type 0
LostRecord done result outcome =
    (error : String) × (outcome ≡ completion_audit_failed done error result)

-- What is reported agrees with what the operation did.
abbrev pub Reports : Result ReviewedOperationResult String → ReviewedExecutionOutcome → Type 0
Reports (ok (ReviewedOperationResult.success none)) outcome =
    (outcome ≡ ReviewedExecutionOutcome.success) ⊎ LostRecord ExecutionOutcome.success none outcome
Reports (ok (ReviewedOperationResult.success (some result))) outcome =
    (outcome ≡ success_with_result result)
    ⊎ LostRecord ExecutionOutcome.success (some result) outcome
Reports (ok (failed_with_result error result)) outcome =
    (outcome ≡ execution_failed_with_result error result) ⊎ LostRecord failed (some result) outcome
Reports (err error) outcome = (outcome ≡ execution_failed error) ⊎ LostRecord failed none outcome

outcome_of-IsOutcome :
    (did : Result ReviewedOperationResult String) → IsOutcome did (outcome_of did)
unfolding outcome_of
outcome_of-IsOutcome (ok (ReviewedOperationResult.success result)) = refl
outcome_of-IsOutcome (ok (failed_with_result error result)) = refl
outcome_of-IsOutcome (err error) = refl

conclude-Reports : (did : Result ReviewedOperationResult String) → Reports did (conclude did)
unfolding conclude
conclude-Reports (ok (ReviewedOperationResult.success none)) = inl refl
conclude-Reports (ok (ReviewedOperationResult.success (some result))) = inl refl
conclude-Reports (ok (failed_with_result error result)) = inl refl
conclude-Reports (err error) = inl refl

lost-Reports :
    (did : Result ReviewedOperationResult String) (error : String)
    → Reports did (completion_audit_failed (outcome_of did) error (preserved_of did))
unfolding outcome_of preserved_of
lost-Reports (ok (ReviewedOperationResult.success none)) error = inr (error, refl)
lost-Reports (ok (ReviewedOperationResult.success (some result))) error = inr (error, refl)
lost-Reports (ok (failed_with_result message result)) error = inr (error, refl)
lost-Reports (err message) error = inr (error, refl)

-- The operation ran once, after its pre-execution record was stored.
pub record Ran (pending : PendingReview) (request_id : ℕ)
    (operation : ℕ → Result ReviewedOperationResult String) (w : World)
    (result : Result ReviewedExecutionOutcome String × World) : Type 0 where
  pub opening : AuditRecord
  pub closing : List Event
  pub at : ℕ
  pub now : ℕ
  pub outcome : ReviewedExecutionOutcome
  pub opened : IsRecordOf pending pre_execution not_executed opening
  pub closed : Closing pending (operation at) closing
  pub reported : Reports (operation at) outcome
  pub returned :
      result
      ≡ (ok outcome, later w (closing ++ (operated request_id ∷ offered opening none ∷ [])) now)

module _ (env : Env) where
  -- What `complete` returns and offers.
  record Completed (pending : PendingReview) (did : Result ReviewedOperationResult String)
      (w : World) (result : Result ReviewedExecutionOutcome String × World) : Type 0 where
    closing : List Event
    now : ℕ
    outcome : ReviewedExecutionOutcome
    closed : Closing pending did closing
    reported : Reports did outcome
    returned : result ≡ (ok outcome, later w closing now)

  complete-Completed :
      (pending : PendingReview) (reason : PolicyReason)
      (did : Result ReviewedOperationResult String) (w : World)
      → review_reason_for_request pending.request ≡ ok reason
      → Completed pending did w (complete env pending reason (persist_audit_locked env) did w)
  unfolding complete
  complete-Completed pending reason did w h =
      elim (new_record-cases env pending reason completion (outcome_of did) w) [
        | inr (e, p) ↦ record {
          closing = [];
          now = (tick w).now;
          outcome =
              completion_audit_failed (outcome_of did)
                ("failed to create completion audit record: " <> e) (preserved_of did);
          closed = inl refl;
          reported = lost-Reports did ("failed to create completion audit record: " <> e);
          returned = ground (arith, p);
        }
        | inl (t, p) ↦
            elim (persist-cases env (record_at pending reason completion (outcome_of did) t)
              (tick w)) [
                | inl q ↦ record {
                  closing =
                      offered (record_at pending reason completion (outcome_of did) t) none ∷ [];
                  now = (tick (tick w)).now;
                  outcome = conclude did;
                  closed = inr (
                    _,
                    none,
                    outcome_of did,
                    refl,
                    record_at-IsRecordOf pending reason completion (outcome_of did) t h,
                    outcome_of-IsOutcome did,
                  );
                  reported = conclude-Reports did;
                  returned = ground (arith, p, q);
                }
                | inr (e, events, shape, q) ↦ record {
                  closing = events;
                  now = (tick (tick w)).now;
                  outcome = completion_audit_failed (outcome_of did) e (preserved_of did);
                  closed = elim shape [
                    | inl none_offered ↦ inl none_offered
                    | inr one ↦ inr (
                      _,
                      some e,
                      outcome_of did,
                      one,
                      record_at-IsRecordOf pending reason completion (outcome_of did) t h,
                      outcome_of-IsOutcome did,
                    )
                  ];
                  reported = lost-Reports did e;
                  returned = ground (arith, p, q);
                }
              ]
      ]

  -- A reviewed action either is refused before the operation, with no record stored, or runs the
  -- operation exactly once: after its pre-execution record was stored, and with at most one
  -- further record, of the completion, which says success where the operation succeeded and failed
  -- where it failed or failed with a result. What it returns then has the operation's result or
  -- error, or says that the completion record was lost, with that outcome and the result if there
  -- is one. The store is not touched.
  pub execute_reviewed_action-Ran :
      (pending : PendingReview) (request_id : ℕ)
      (operation : ℕ → Result ReviewedOperationResult String) (w : World)
      → Refused w (
          execute_reviewed_action env pending
            (persist_audit_locked env)
            (operate env request_id operation)
            w)
        ⊎ Ran pending request_id operation w (
            execute_reviewed_action env pending
              (persist_audit_locked env)
              (operate env request_id operation)
              w)
  unfolding execute_reviewed_action operate
  execute_reviewed_action-Ran pending request_id operation w =
      elim (Result-cases (review_reason_for_request pending.request)) [
        | inr (e, p) ↦ inl (record {
          error = e;
          events = [];
          now = w.now;
          declined = inl refl;
          returned = rw (p, execute_reviewed_action) refl;
        })
        | inl (reason, p) ↦
            elim (new_record-cases env pending reason pre_execution not_executed w) [
              | inr (e, q) ↦ inl (record {
                error = "failed to create pre-execution audit record: " <> e;
                events = [];
                now = (tick w).now;
                declined = inl refl;
                returned = rw (p, q, execute_reviewed_action) refl;
              })
              | inl (t, q) ↦
                  elim (persist-cases env (record_at pending reason pre_execution not_executed t)
                    (tick w)) [
                      | inr (e, events, shape, r) ↦ inl (record {
                        error = "failed to persist pre-execution audit: " <> e;
                        events = events;
                        now = (tick (tick w)).now;
                        declined = elim shape [
                          | inl none_offered ↦ inl none_offered
                          | inr one ↦ inr (_, e, one)
                        ];
                        returned = rw (p, q, r, execute_reviewed_action) refl;
                      })
                      | inl r ↦
                          let opening : AuditRecord =
                            record_at pending reason pre_execution not_executed t in
                          let at : ℕ = (tick (tick w)).now in
                          let before : World =
                            later w (operated request_id ∷ offered opening none ∷ []) (at + 1) in
                          let done = complete-Completed pending reason (operation at) before p in
                          inr (record {
                            opening = opening;
                            closing = done.closing;
                            at = at;
                            now = done.now;
                            outcome = done.outcome;
                            opened =
                                record_at-IsRecordOf pending reason pre_execution not_executed t p;
                            closed = done.closed;
                            reported = done.reported;
                            returned = ground (arith, p, q, r, done.returned);
                          })
                    ]
            ]
      ]
