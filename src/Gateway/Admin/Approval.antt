-- ===== src/Gateway/Admin/Approval.antt =====
-- The audit of an approval.
use zyguor_agent_execution_g.Base.{
  ℕ, String, ◌<>◌, ◌≡◌, refl, ◌≢◌, ◌⊎◌, inl, inr, none, List, [], ◌∷◌, ok, err, Result-cases, arith,
}
use zyguor_agent_execution_g.PendingReview.{PendingReview}
use zyguor_agent_execution_g.Gateway.Types.{AuditRecord, approval, not_executed}
use zyguor_agent_execution_g.Gateway.Evaluate.{review_reason_for_request}
use zyguor_agent_execution_g.Gateway.World.{Event, offered, World, Env, tick, persist_audit_locked}
use zyguor_agent_execution_g.Gateway.Audit.{
  write_decision_audit, write_approval_audit, audit_claimed_approval, restore_after,
  restore_claimed_request,
}
use zyguor_agent_execution_g.Gateway.Audit.Records.{
  later, Declined, record_at, new_record-cases, persist-cases,
}
use zyguor_agent_execution_g.Gateway.Review.Claimed.{
  operations, operations-Declined, operations-offered, restore_after-journal,
}

module _ (env : Env) where
  write_approval-cases :
      (claimed : PendingReview) (w : World)
      → ((r : AuditRecord) × (now : ℕ) × (write_approval_audit env claimed
              (persist_audit_locked env)
              w
            ≡ (ok tt, later w (offered r none ∷ []) now)))
        ⊎ ((e : String) × (events : List Event) × (now : ℕ) × Declined events
            × (write_approval_audit env claimed (persist_audit_locked env) w
                ≡ (err e, later w events now)))
  unfolding write_approval_audit write_decision_audit
  write_approval-cases claimed w = elim (Result-cases (review_reason_for_request claimed.request)) [
    | inr (e, p) ↦ inr (e, [], w.now, inl refl, ground (arith, p))
    | inl (reason, p) ↦ elim (new_record-cases env claimed reason approval not_executed w) [
      | inr (e, q) ↦ inr (
        "failed to create " <> "approval" <> " audit record: " <> e,
        [],
        (tick w).now,
        inl refl,
        ground (arith, p, q),
      )
      | inl (t, q) ↦
          let r = record_at claimed reason approval not_executed t in
          elim (persist-cases env r (tick w)) [
            | inl s ↦ inl (r, (tick (tick w)).now, ground (arith, p, q, s))
            | inr (e, events, shape, s) ↦ inr (
              "failed to persist " <> "approval" <> " audit: " <> e,
              events,
              (tick (tick w)).now,
              elim shape [ inl h ↦ inl h | inr h ↦ inr (r, e, h) ],
              rw (p, q, s, write_approval_audit, write_decision_audit) refl,
            )
          ]
    ]
  ]

  restore_after-fails :
      (claimed : PendingReview) (failure : String) (w : World)
      → (restore_after env {A = Unit {0}} claimed failure w).0 ≢ ok tt
  unfolding restore_after
  restore_after-fails claimed failure w h =
      elim (Result-cases (restore_claimed_request env claimed w).0) [
        | inl (u, q) ↦ ground (arith, h, q)
        | inr (e, q) ↦ ground (arith, h, q)
      ]

  -- The audit of an approval runs nothing, and when it succeeds it leaves the store alone.
  pub audit_claimed_approval-same :
      (claimed : PendingReview) (w : World)
      → let done = audit_claimed_approval env claimed (persist_audit_locked env) w in
        (operations done.1.journal ≡ operations w.journal)
        × ((done.0 ≡ ok tt) → done.1.durable ≡ w.durable)
  unfolding audit_claimed_approval
  audit_claimed_approval-same claimed w = elim (write_approval-cases claimed w) [
    | inr (e, events, now, declined, p) ↦
        let w₁ = later w events now in
        (
          ground (
            arith,
            p,
            restore_after-journal env (Unit {0}) claimed e w₁,
            operations-Declined events w.journal declined,
          ),
          λ h. ground (arith, p, h, restore_after-fails claimed e w₁),
        )
    | inl (r, now, p) ↦ (ground (arith, p, operations-offered r w.journal), λ h. ground (arith, p))
  ]
