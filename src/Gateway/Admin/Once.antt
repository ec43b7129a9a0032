-- ===== src/Gateway/Admin/Once.antt =====
-- What an operator's command may run.
use zyguor_agent_execution_g.Base.{
  ℕ, ◌+◌, String, ◌≡◌, sym, ◌∙◌, ap, ◌⊎◌, inl, inr, Bool-cases, none, some, Option-cases, ◌∷◌, ok,
  Result-cases, arith,
}
use zyguor_agent_execution_g.Config.{GatewayConfig}
use zyguor_agent_execution_g.PendingReview.{PendingReview}
use zyguor_agent_execution_g.PendingReview.Store.{PendingReviewStore, get, claim}
use zyguor_agent_execution_g.Gateway.Evaluate.{revalidate_pending_request_with_config}
use zyguor_agent_execution_g.Gateway.World.{World, Env, persist_audit_locked, operate}
use zyguor_agent_execution_g.Gateway.Audit.{audit_claimed_approval}
use zyguor_agent_execution_g.Gateway.Review.{execute_claimed}
use zyguor_agent_execution_g.Gateway.Admin.Approval.{audit_claimed_approval-same}
use zyguor_agent_execution_g.Gateway.Review.Claimed.{operations, claim-waiting}
use zyguor_agent_execution_g.Gateway.Admin.Own.{Did, IsOwn, execute_approved-RunsOwn}
use zyguor_agent_execution_g.Gateway.Admin.{execute_approved, handle_approve}

some-injective : (a b : PendingReview) → some a ≡ some b → a ≡ b
some-injective a b h = ground (arith, h)

get-none :
    (request_id : ℕ) (a b : PendingReviewStore)
    → a.reviews ≡ b.reviews
    → get request_id b ≡ none
    → get request_id a ≡ none
unfolding get
get-none request_id a b h e = rw h e

module _ (env : Env) (config : GatewayConfig) where
  -- An approval runs at most one operation. If it runs one, the request was waiting, passed
  -- revalidation at that moment, and does not wait any more; and the world is left as carrying out
  -- the claimed request with its own operation leaves it: the write of its content at its path,
  -- the test run at the fingerprint that was reviewed, or the POST of its body to its approved
  -- destination. This holds whatever the clock, the locks, the audit sink and the saves do.
  pub handle_approve-once :
      (request_id : ℕ) (w : World)
      → let w' = (handle_approve env config request_id w).1 in
        (operations w'.journal ≡ operations w.journal)
        ⊎ ((pending : PendingReview) × (get request_id w.durable.store ≡ some pending)
            × (revalidate_pending_request_with_config env.url pending
                  (env.filesystem (w.now + 1))
                  config
                ≡ ok tt)
            × (operations w'.journal ≡ pending.request_id ∷ operations w.journal)
            × (get request_id w'.durable.store ≡ none)
            × (name : String) × (operation : ℕ → Did) × IsOwn env config pending pending.request
                operation
            × (before : World) × (w'
                ≡ (execute_claimed env name pending
                    (persist_audit_locked env)
                    (operate env pending.request_id operation)
                    before).1))
  unfolding handle_approve
  handle_approve-once request_id w = elim (Bool-cases (env.store_poisoned w.now)) [
    | inl p ↦ inl (ground (arith, p))
    | inr p ↦ elim (Option-cases (get request_id w.durable.store)) [
      | inl q ↦ inl (ground (arith, p, q))
      | inr (pending, q) ↦
          elim (Result-cases (
            revalidate_pending_request_with_config env.url pending (env.filesystem (w.now + 1))
              config)) [
                | inr (e, r) ↦ inl (ground (arith, p, q, r))
                | inl (u, r) ↦ elim (Bool-cases (env.store_poisoned (w.now + 1 + 1))) [
                  | inl s ↦ inl (ground (arith, p, q, r, s))
                  | inr s ↦
                      elim (Result-cases
                        (claim env.json (env.save (w.now + 1 + 1)) request_id w.durable).0) [
                          | inr (e, t) ↦ inl (ground (arith, p, q, r, s, t))
                          | inl (claimed, t) ↦
                              let io = env.save (w.now + 1 + 1) in
                              let waited =
                                claim-waiting env.json io request_id w.durable claimed t in
                              let same_review : pending ≡ claimed =
                                some-injective pending claimed (sym q ∙ waited.0) in
                              let w₃ : World = record w {
                                durable = (claim env.json io request_id w.durable).1;
                                now = w.now + 1 + 1 + 1;
                              } in
                              let audited = audit_claimed_approval-same env claimed w₃ in
                              let answer =
                                audit_claimed_approval env claimed (persist_audit_locked env) w₃ in
                              elim (Result-cases answer.0) [
                                | inr (e, a) ↦ inl (ground (arith, p, q, r, s, t, a, audited.0))
                                | inl (u', a) ↦
                                    let whole : handle_approve env config request_id w
                                        ≡ execute_approved env config request_id claimed
                                            claimed.request answer.1 =
                                      ground (arith, p, q, r, s, t, a) in
                                    elim (execute_approved-RunsOwn env config request_id claimed
                                      claimed.request answer.1) [
                                        | inl nothing ↦
                                            inl (ground (arith, whole, nothing, audited.0))
                                        | inr (one, left, name, operation, own, carried) ↦
                                            let final =
                                              (execute_approved env config request_id claimed
                                                claimed.request answer.1).1.durable in
                                            let kept : answer.1.durable ≡ w₃.durable =
                                              audited.1 (ground (arith, a)) in
                                            inr (
                                              claimed,
                                              waited.0,
                                              rw (sym same_review) (ground (arith, r)),
                                              ground (arith, whole, one, audited.0),
                                              rw (whole) (
                                                  get-none request_id final.store w₃.durable.store
                                                    (left ∙ ap (λ d. d.store.reviews) kept)
                                                    waited.1),
                                              name,
                                              operation,
                                              own,
                                              answer.1,
                                              rw (whole) carried,
                                            )
                                      ]
                              ]
                        ]
                ]
              ]
    ]
  ]
