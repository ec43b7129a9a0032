-- ===== src/Gateway/Execute/Gated.antt =====
-- What the agent can bring about by itself.
use zyguor_agent_execution_g.Base.{
  ℕ, ◌+◌, String, ◌≡◌, ◌≢◌, inl, inr, Bool-cases, ok, Result-cases, arith,
}
use zyguor_agent_execution_g.Execution.{ExecutionRequest}
use zyguor_agent_execution_g.Policy.{allow, is_review}
use zyguor_agent_execution_g.Config.{GatewayConfig}
use zyguor_agent_execution_g.Config.Bounds.{IsValid}
use zyguor_agent_execution_g.Gateway.Types.{ExecuteParams}
use zyguor_agent_execution_g.Gateway.Evaluate.{evaluate_request_with_config}
use zyguor_agent_execution_g.Gateway.Evaluate.Gated.{HasEffect, evaluate-gated}
use zyguor_agent_execution_g.Gateway.Request.{build_execution_request}
use zyguor_agent_execution_g.Gateway.World.{World, Env, tick, with_store}
use zyguor_agent_execution_g.Gateway.Message.{Encoding}
use zyguor_agent_execution_g.Gateway.Message.Gated.{execute_message-operations}
use zyguor_agent_execution_g.Gateway.Review.Claimed.{operations}
use zyguor_agent_execution_g.Gateway.Execute.{
  Runners, hold, run_request, queue, execute_built, execute_request_with_config,
}

module _ (env : Env) (encoding : Encoding) (runners : Runners) (config : GatewayConfig) where
  pub queue-journal :
      (request_id : ℕ) (purpose : String) (request : ExecutionRequest) (w : World)
      → (queue env encoding runners config request_id purpose request w).1.journal ≡ w.journal
  unfolding queue with_store
  queue-journal request_id purpose request w =
      elim (Result-cases
        (hold env encoding runners config request_id purpose (env.filesystem w.now) request)) [
          | inr (e, p) ↦ ground (arith, p)
          | inl (pending, p) ↦ elim (Bool-cases (env.store_poisoned (w.now + 1))) [
            | inl q ↦ ground (arith, p, q)
            | inr q ↦ ground (arith, p, q)
          ]
        ]

  execute_built-operations :
      (params : ExecuteParams) (request : ExecutionRequest) (w : World)
      → (evaluate_request_with_config env.url request (env.filesystem w.now) config).decision
        ≢ allow
      → operations (execute_built env encoding runners config params request w).1.journal
        ≡ operations w.journal
  unfolding execute_built
  execute_built-operations params request w gated =
      let evaluation = evaluate_request_with_config env.url request (env.filesystem w.now) config in
      let request_id = runners.new_v4 w.now in
      let runner = run_request env encoding runners config request in
      let queued = queue env encoding runners config request_id params.purpose request (tick w) in
      let kept = queue-journal request_id params.purpose request (tick w) in
      elim (Bool-cases (is_review evaluation.decision)) [
        | inl p ↦ elim (Result-cases queued.0) [
          | inr (e, q) ↦ ground (arith, p, q, kept)
          | inl (u, q) ↦
              elim (execute_message-operations env encoding request_id params.purpose evaluation
                runner queued.1) [
                  | inl same ↦ ground (arith, p, q, kept, same)
                  | inr (allowed, ran) ↦ absurd (gated allowed)
                ]
        ]
        | inr p ↦
            elim (execute_message-operations env encoding request_id params.purpose evaluation
              runner (tick w)) [
                | inl same ↦ ground (arith, p, same)
                | inr (allowed, ran) ↦ absurd (gated allowed)
              ]
      ]

  -- Under an accepted configuration, parameters that build a write, a test run or a POST run
  -- nothing when the agent sends them, whatever the workspace, the clock, the audit sink and the
  -- saves do.
  pub execute_request-gated :
      (params : ExecuteParams) (request : ExecutionRequest) (w : World)
      → IsValid env.url config
      → build_execution_request params ≡ ok request
      → HasEffect request
      → operations (execute_request_with_config env encoding runners config params w).1.journal
        ≡ operations w.journal
  unfolding execute_request_with_config
  execute_request-gated params request w valid built effect = ground (
    arith,
    built,
    execute_built-operations params request w
        (evaluate-gated env.url (env.filesystem w.now) config valid request effect),
  )
