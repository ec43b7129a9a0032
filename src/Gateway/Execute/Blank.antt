-- ===== src/Gateway/Execute/Blank.antt =====
-- A request that is held for review under a purpose that is blank.
use zyguor_agent_execution_g.Base.{
  ℕ, ◌+◌, String, ◌≡◌, inl, inr, true, Bool-cases, some, ok, err, Result-cases, arith,
}
use zyguor_agent_execution_g.Base.Assoc.{insert, remove, lookup-insert, contains_key}
use zyguor_agent_execution_g.Base.Text.{trim, is_empty}
use zyguor_agent_execution_g.Execution.{ExecutionRequest}
use zyguor_agent_execution_g.Policy.{PolicyDecision, is_review}
use zyguor_agent_execution_g.Config.{GatewayConfig}
use zyguor_agent_execution_g.PendingReview.{PendingReview}
use zyguor_agent_execution_g.PendingReview.State.{Serde}
use zyguor_agent_execution_g.PendingReview.Disk.{SaveIo, Saved, before_commit, after_commit}
use zyguor_agent_execution_g.PendingReview.Store.{
  PendingReviewStore, Durable, get, settle, persist, insert_review, with_reviews,
}
use zyguor_agent_execution_g.Gateway.Types.{ExecuteParams}
use zyguor_agent_execution_g.Gateway.Evaluate.{evaluate_request_with_config}
use zyguor_agent_execution_g.Gateway.Request.{build_execution_request}
use zyguor_agent_execution_g.Gateway.World.{World, Env, tick, with_store}
use zyguor_agent_execution_g.Gateway.Message.{
  Encoding, validate_message, execute_message_with_audit_id,
}
use zyguor_agent_execution_g.Gateway.Execute.{
  Runners, hold, queue, execute_built, execute_request_with_config,
}

get-added :
    (review : PendingReview) (s : PendingReviewStore)
    → get review.request_id
        (with_reviews s (insert review.request_id review s.reviews) s.claimed_reviews)
      ≡ some review
unfolding get
get-added review s =
    ground (arith, lookup-insert review.request_id review.request_id review s.reviews)

settle-some :
    (review : PendingReview) (prefix : String) (new old : PendingReviewStore) (saved : Saved)
    → get review.request_id new ≡ some review
    → (settle {0} {A = Unit {0}} tt prefix new old saved).0 ≡ ok tt
    → get review.request_id (settle {0} {A = Unit {0}} tt prefix new old saved).1.store
      ≡ some review
unfolding settle
settle-some review prefix new old (ok u, disk) h e = h
settle-some review prefix new old (err (before_commit m), disk) h e = cc
settle-some review prefix new old (err (after_commit m), disk) h e = cc

-- A review that was inserted waits.
pub insert-waiting :
    (json : Serde) (io : SaveIo) (review : PendingReview) (d : Durable)
    → (insert_review json io review d).0 ≡ ok tt
    → get review.request_id (insert_review json io review d).1.store ≡ some review
unfolding insert_review
insert-waiting json io review d h =
    elim (Bool-cases (contains_key review.request_id d.store.reviews)) [
      | inl p ↦ ground (arith, p, h)
      | inr p ↦
          let added = insert review.request_id review d.store.reviews in
          let new = with_reviews d.store added d.store.claimed_reviews in
          let old = with_reviews d.store (remove review.request_id added) d.store.claimed_reviews in
          let saved = persist json io new d.disk in
          let prefix : String = "failed to persist pending review insertion: " in
          let whole : insert_review json io review d
              ≡ settle {0} {A = Unit {0}} tt prefix new old saved =
            ground (arith, p) in
          rw (whole) (
            settle-some review prefix new old saved (get-added review d.store)
              (ground (arith, h, whole)))
    ]

module _ (env : Env) (encoding : Encoding) (runners : Runners) (config : GatewayConfig) where
  queue-waiting :
      (request_id : ℕ) (purpose : String) (request : ExecutionRequest) (w : World)
      → (queue env encoding runners config request_id purpose request w).0 ≡ ok tt
      → (pending : PendingReview) × (hold env encoding runners config request_id purpose
            (env.filesystem w.now)
            request
          ≡ ok pending)
        × (get pending.request_id
              (queue env encoding runners config request_id purpose request w).1.durable.store
            ≡ some pending)
  unfolding queue with_store
  queue-waiting request_id purpose request w h =
      elim (Result-cases
        (hold env encoding runners config request_id purpose (env.filesystem w.now) request)) [
          | inr (e, p) ↦ ground (arith, p, h)
          | inl (pending, p) ↦ elim (Bool-cases (env.store_poisoned (w.now + 1))) [
            | inl q ↦ ground (arith, p, q, h)
            | inr q ↦ (
              pending,
              p,
              ground (
                arith,
                p,
                q,
                insert-waiting env.json (env.save (w.now + 1)) pending w.durable
                    (ground (arith, p, q, h)),
              ),
            )
          ]
        ]

  -- When a request is held for review with a blank purpose and its review is stored, the agent
  -- gets an error, yet the review waits for the operator.
  pub execute_request-blank :
      (params : ExecuteParams) (request : ExecutionRequest) (w : World)
      → build_execution_request params ≡ ok request
      → (evaluate_request_with_config env.url request (env.filesystem w.now) config).decision
        ≡ PolicyDecision.review
      → is_empty (trim params.purpose) ≡ true
      → (queue env encoding runners config (runners.new_v4 w.now) params.purpose request (tick w)).0
        ≡ ok tt
      → ((execute_request_with_config env encoding runners config params w).0
          ≡ err "message cannot be empty")
        × ((pending : PendingReview) × (hold env encoding runners config
                (runners.new_v4 w.now)
                params.purpose
                (env.filesystem (w.now + 1))
                request
              ≡ ok pending)
            × (get pending.request_id
                  (execute_request_with_config env encoding runners config params w).1.durable.store
                ≡ some pending))
  unfolding execute_request_with_config execute_built execute_message_with_audit_id validate_message
      is_review
  execute_request-blank params request w built decided blank queued =
      let (pending, held, waits) =
        queue-waiting (runners.new_v4 w.now) params.purpose request (tick w) queued in
      (
        ground (arith, built, decided, blank, queued),
        (pending, held, ground (arith, built, decided, blank, queued, waits)),
      )
