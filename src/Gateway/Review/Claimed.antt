-- ===== src/Gateway/Review/Claimed.antt =====
-- The store and the journal after an execution of a claimed request.
use zyguor_agent_execution_g.Base.{
  ℕ, String, ◌≡◌, refl, ◌∙◌, ap, ◌⊎◌, inl, inr, Bool-cases, Option, none, some, Option-cases, List,
  [], ◌∷◌, ◌++◌, Result, ok, err, Result-cases, arith,
}
use zyguor_agent_execution_g.Base.Assoc.{lookup, insert, remove, lookup-remove, contains_key}
use zyguor_agent_execution_g.PendingReview.{PendingReview}
use zyguor_agent_execution_g.PendingReview.State.{Serde}
use zyguor_agent_execution_g.PendingReview.Disk.{SaveIo, Saved, before_commit, after_commit}
use zyguor_agent_execution_g.PendingReview.Store.{
  PendingReviewStore, Durable, with_reviews, get, settle, settle_consume, persist, claim,
  restore_claimed, consume_claimed_classified,
}
use zyguor_agent_execution_g.Gateway.Types.{
  AuditRecord, ReviewedOperationResult, ReviewedExecutionOutcome,
}
use zyguor_agent_execution_g.Gateway.World.{
  Event, offered, operated, World, Env, with_store, persist_audit_locked, operate,
}
use zyguor_agent_execution_g.Gateway.Audit.{
  consume_claimed_request, restore_after, restore_claimed_request,
}
use zyguor_agent_execution_g.Gateway.Review.{execute_claimed}
use zyguor_agent_execution_g.Gateway.Audit.Records.{later, Declined}
use zyguor_agent_execution_g.Gateway.Review.Trace.{execute_reviewed_action-Ran}

-- The requests whose operation ran, newest first.
unfoldable pub operations : List Event → List ℕ
operations [] = []
operations (offered r answer ∷ rest) = operations rest
operations (operated request_id ∷ rest) = request_id ∷ operations rest

settle_consume-reviews :
    (review : PendingReview) (new old : PendingReviewStore) (saved : Saved)
    → new.reviews ≡ old.reviews
    → (settle_consume review new old saved).1.store.reviews ≡ old.reviews
unfolding settle_consume
settle_consume-reviews review new old (ok u, disk) h = h
settle_consume-reviews review new old (err (before_commit m), disk) h = refl
settle_consume-reviews review new old (err (after_commit m), disk) h = h

-- Consuming a claimed review leaves the waiting ones alone, whatever the save does.
pub consume-reviews :
    (json : Serde) (io : SaveIo) (request_id : ℕ) (d : Durable)
    → (consume_claimed_classified json io request_id d).1.store.reviews ≡ d.store.reviews
unfolding consume_claimed_classified
consume-reviews json io request_id d =
    elim (Option-cases (lookup request_id d.store.claimed_reviews)) [
      | inl p ↦ rw (p, consume_claimed_classified) refl
      | inr (r, p) ↦ rw (p, consume_claimed_classified) (settle_consume-reviews r _ _ _ refl)
    ]

settle-none :
    (request_id : ℕ) (a review : PendingReview) (prefix : String) (new old : PendingReviewStore)
    (saved : Saved)
    → lookup request_id new.reviews ≡ none
    → (settle a prefix new old saved).0 ≡ ok review
    → (a ≡ review) × (lookup request_id (settle a prefix new old saved).1.store.reviews ≡ none)
unfolding settle
settle-none request_id a review prefix new old (ok u, disk) h e = (ground (arith, e), h)
settle-none request_id a review prefix new old (err (before_commit m), disk) h e = cc
settle-none request_id a review prefix new old (err (after_commit m), disk) h e = cc

-- A request that was claimed was waiting, and is not any more.
pub claim-waiting :
    (json : Serde) (io : SaveIo) (request_id : ℕ) (d : Durable) (review : PendingReview)
    → (claim json io request_id d).0 ≡ ok review
    → (get request_id d.store ≡ some review)
      × (get request_id (claim json io request_id d).1.store ≡ none)
unfolding claim get
claim-waiting json io request_id d review h =
    elim (Bool-cases (contains_key request_id d.store.claimed_reviews)) [
      | inl p ↦ ground (arith, p, h)
      | inr p ↦ elim (Option-cases (lookup request_id d.store.reviews)) [
        | inl q ↦ ground (arith, p, q, h)
        | inr (r, q) ↦
            let left = remove request_id d.store.reviews in
            let taken = insert request_id r d.store.claimed_reviews in
            let new = with_reviews d.store left taken in
            let old = with_reviews d.store (insert request_id r left) (remove request_id taken) in
            let saved = persist json io new d.disk in
            let prefix : String = "failed to persist pending review claim: " in
            let gone : lookup request_id left ≡ none =
              ground (arith, lookup-remove request_id request_id d.store.reviews) in
            let whole : claim json io request_id d ≡ settle r prefix new old saved =
              ground (arith, p, q) in
            let done =
              settle-none request_id r review prefix new old saved gone
                (ground (arith, h, whole)) in
            (q ∙ ap some done.0, ground (arith, whole, done.1))
      ]
    ]

pub operations-offered :
    (r : AuditRecord) (rest : List Event) → operations (offered r none ∷ rest) ≡ operations rest
unfolding operations
operations-offered r rest = refl

pub operations-Declined :
    (events rest : List Event) → Declined events → operations (events ++ rest) ≡ operations rest
unfolding operations
operations-Declined events rest (inl h) = rw h refl
operations-Declined events rest (inr (r, error, h)) = rw h refl

operations-ran :
    (request_id : ℕ) (events : List Event) (opening : AuditRecord) (rest : List Event)
    → (events ≡ [])
      ⊎ ((r : AuditRecord) × (answer : Option String) × (events ≡ offered r answer ∷ []))
    → operations ((events ++ (operated request_id ∷ offered opening none ∷ [])) ++ rest)
      ≡ request_id ∷ operations rest
unfolding operations
operations-ran request_id events opening rest (inl h) = rw h refl
operations-ran request_id events opening rest (inr (r, answer, h)) = rw h refl

module _ (env : Env) where
  consume_request-same :
      (request_id : ℕ) (w : World)
      → ((consume_claimed_request env request_id w).1.durable.store.reviews
          ≡ w.durable.store.reviews)
        × ((consume_claimed_request env request_id w).1.journal ≡ w.journal)
  unfolding consume_claimed_request with_store
  consume_request-same request_id w = elim (Bool-cases (env.store_poisoned w.now)) [
    | inl p ↦ (ground (arith, p), ground (arith, p))
    | inr p ↦ (
      ground (arith, p, consume-reviews env.json (env.save w.now) request_id w.durable),
      ground (arith, p),
    )
  ]

  pub restore_after-journal :
      (A : Type 0) (claimed : PendingReview) (failure : String) (w : World)
      → (restore_after env {A = A} claimed failure w).1.journal ≡ w.journal
  unfolding restore_after restore_claimed_request with_store
  restore_after-journal A claimed failure w = elim (Bool-cases (env.store_poisoned w.now)) [
    | inl p ↦ ground (arith, p)
    | inr p ↦ elim (Result-cases (restore_claimed env.json (env.save w.now) claimed w.durable).0) [
      | inl (u, q) ↦ ground (arith, p, q)
      | inr (e, q) ↦ ground (arith, p, q)
    ]
  ]

  -- Executing a claimed request either runs nothing, or runs its operation once and leaves the
  -- waiting requests as they were, so that it does not wait again; this whatever the clock, the
  -- locks, the audit sink and the saves do.
  pub execute_claimed-operations :
      (name : String) (claimed : PendingReview) (request_id : ℕ)
      (operation : ℕ → Result ReviewedOperationResult String) (w : World)
      → let w' =
          (execute_claimed env name claimed
            (persist_audit_locked env)
            (operate env request_id operation)
            w).1 in
        (operations w'.journal ≡ operations w.journal)
        ⊎ ((operations w'.journal ≡ request_id ∷ operations w.journal)
            × (w'.durable.store.reviews ≡ w.durable.store.reviews))
  unfolding execute_claimed
  execute_claimed-operations name claimed request_id operation w =
      elim (execute_reviewed_action-Ran env claimed request_id operation w) [
        | inl refused ↦
            let w₁ = later w refused.events refused.now in
            inl (
              ground (
                arith,
                refused.returned,
                restore_after-journal ReviewedExecutionOutcome claimed refused.error w₁,
                operations-Declined refused.events w.journal refused.declined,
              ))
        | inr ran ↦
            let events = ran.closing ++ (operated request_id ∷ offered ran.opening none ∷ []) in
            let w₁ = later w events ran.now in
            let same = consume_request-same claimed.request_id w₁ in
            let closed : (ran.closing ≡ [])
                ⊎ ((r : AuditRecord) × (answer : Option String) × (ran.closing
                      ≡ offered r answer ∷ [])) =
              elim ran.closed [
                | inl h ↦ inl h
                | inr (r, answer, o, h, is, did) ↦ inr (r, answer, h)
              ] in
            let grown = operations-ran request_id ran.closing ran.opening w.journal closed in
            elim (Result-cases (consume_claimed_request env claimed.request_id w₁).0) [
              | inl (a, p) ↦ inr (
                ground (arith, ran.returned, same, grown, p),
                ground (arith, ran.returned, same, p),
              )
              | inr (e, p) ↦ inr (
                ground (arith, ran.returned, same, grown, p),
                ground (arith, ran.returned, same, p),
              )
            ]
      ]
