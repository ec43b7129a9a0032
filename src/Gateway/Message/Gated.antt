-- ===== src/Gateway/Message/Gated.antt =====
-- What a request of the agent may run.
use zyguor_agent_execution_g.Base.{
  ℕ, String, ◌≡◌, refl, ◌⊎◌, inl, inr, ◌∷◌, Result, Result-cases, arith,
}
use zyguor_agent_execution_g.Policy.{
  PolicyReason, PolicyDecision, allow, review, block, PolicyEvaluation,
}
use zyguor_agent_execution_g.Gateway.Types.{
  ExecutionResult, AuditRecord, AuditPhase, pre_execution, completion, ExecutionOutcome,
  not_executed,
}
use zyguor_agent_execution_g.Gateway.World.{World, Env, tick, persist_audit_locked, operate}
use zyguor_agent_execution_g.Gateway.Audit.{new_record}
use zyguor_agent_execution_g.Gateway.Audit.Records.{persist-cases}
use zyguor_agent_execution_g.Gateway.Review.Claimed.{operations}
use zyguor_agent_execution_g.Gateway.Message.{
  Encoding, Handled, validate_message, handle_decision, execute_message_with_audit_id,
}

module _ (env : Env) where
  new_record-tick :
      (id : ℕ) (message : String) (d : PolicyDecision) (r : PolicyReason) (p : AuditPhase)
      (o : ExecutionOutcome) (w : World)
      → (new_record env id message d r p o w).1 ≡ tick w
  unfolding new_record
  new_record-tick id message d r p o w = elim (Result-cases (env.clock w.now)) [
    | inl (t, q) ↦ ground (arith, q)
    | inr (e, q) ↦ ground (arith, q)
  ]

  persist-operations :
      (r : AuditRecord) (w : World)
      → operations (persist_audit_locked env r w).1.journal ≡ operations w.journal
  unfolding operations
  persist-operations r w = elim (persist-cases env r w) [
    | inl p ↦ ground (arith, p)
    | inr (e, events, inl h, p) ↦ ground (arith, p, h)
    | inr (e, events, inr h, p) ↦ ground (arith, p, h)
  ]

module _ (env : Env) (encoding : Encoding) (request_id : ℕ) (message : String)
    (evaluation : PolicyEvaluation) (runner : ℕ → Result ExecutionResult String) where
  abbrev handled_in : PolicyDecision → World → Result Handled String × World
  handled_in decision w =
      handle_decision env encoding request_id message evaluation (persist_audit_locked env)
        (operate env request_id runner) decision w

  abbrev executed_in : World → Result String String × World
  executed_in w =
      execute_message_with_audit_id env encoding request_id message evaluation
        (persist_audit_locked env) (operate env request_id runner) w

  handled-operations :
      (decision : PolicyDecision) (w : World)
      → (operations (handled_in decision w).1.journal ≡ operations w.journal)
        ⊎ ((decision ≡ allow)
            × (operations (handled_in decision w).1.journal ≡ request_id ∷ operations w.journal))
  unfolding handle_decision operate operations
  handled-operations review w = inl refl
  handled-operations block w = inl refl
  handled-operations allow w =
      let made =
        new_record env request_id message evaluation.decision evaluation.reason pre_execution
          not_executed w in
      let ticked =
        new_record-tick env request_id message evaluation.decision evaluation.reason pre_execution
          not_executed w in
      elim (Result-cases made.0) [
        | inr (e, p) ↦ inl (ground (arith, p, ticked))
        | inl (r, p) ↦ elim (Result-cases (persist_audit_locked env r (tick w)).0) [
          | inr (e, q) ↦ inl (ground (arith, p, q, ticked, persist-operations env r (tick w)))
          | inl (u, q) ↦ inr (refl, ground (arith, p, q, ticked, persist-operations env r (tick w)))
        ]
      ]

  -- A request of the agent runs only if the policy allows it, and then at most once, whatever
  -- the clock, the audit sink and the encoder do.
  pub execute_message-operations :
      (w : World)
      → (operations (executed_in w).1.journal ≡ operations w.journal)
        ⊎ ((evaluation.decision ≡ allow)
            × (operations (executed_in w).1.journal ≡ request_id ∷ operations w.journal))
  unfolding execute_message_with_audit_id
  execute_message-operations w = elim (Result-cases (validate_message message)) [
    | inr (e, p) ↦ inl (ground (arith, p))
    | inl (u, p) ↦
        let handled = handled_in evaluation.decision w in
        let ran = handled-operations evaluation.decision w in
        elim (Result-cases handled.0) [
          | inr (e, q) ↦ ground (arith, p, q, ran)
          | inl (h, q) ↦
              let made =
                new_record env request_id message evaluation.decision evaluation.reason completion
                  h.execution_outcome handled.1 in
              let ticked =
                new_record-tick env request_id message evaluation.decision evaluation.reason
                  completion h.execution_outcome handled.1 in
              elim (Result-cases made.0) [
                | inr (e, r) ↦ ground (arith, p, q, r, ticked, ran)
                | inl (a, r) ↦
                    ground (arith, p, q, r, ticked, ran, persist-operations env a (tick handled.1))
              ]
        ]
  ]
