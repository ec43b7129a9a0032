-- ===== src/Gateway/Execute.antt =====
-- `execute_request_with_config`: what the gateway does with the agent's parameters.
pub mod Blank
pub mod Gated
use zyguor_agent_execution_g.Base.{
  ℕ, String, ◌<>◌, Bool, Option, none, some, Result, ok, err, map_ok, map_err, if◌then◌else◌,
}
use zyguor_agent_execution_g.Base.Results.{◌>>=◌ as after}
use zyguor_agent_execution_g.Execution.{
  HttpMethod, get, post, HttpRequestArguments, AddArguments, ExecutionRequest, add, read_file,
  write_file, git_status, run_cargo_test, http_request,
}
use zyguor_agent_execution_g.Policy.{is_review, PolicyEvaluation}
use zyguor_agent_execution_g.Http.Destination.{validate_http_destination}
use zyguor_agent_execution_g.Config.{GatewayConfig}
use zyguor_agent_execution_g.PendingReview.{
  PendingReview, new_pending, new_with_workspace_fingerprint, new_with_write_target_state,
}
use zyguor_agent_execution_g.PendingReview.Store.{insert_review}
use zyguor_agent_execution_g.Gateway.Types.{ExecutionResult, ExecuteParams}
use zyguor_agent_execution_g.Gateway.Evaluate.{FileSystem, evaluate_request_with_config}
use zyguor_agent_execution_g.Gateway.Request.{build_execution_request}
use zyguor_agent_execution_g.Gateway.World.{
  Env, World, Exec, tick, lift, ◌>>=◌, ◌>>◌, with_store, persist_audit_locked, operate,
}
use zyguor_agent_execution_g.Gateway.Message.{Encoding, execute_message_with_audit_id}

-- What the sandbox, the workspace and git answer to the operations that may run at once, and the
-- next `Uuid`.
pub record Runners : Type 0 where
  pub execute_add : ℕ → AddArguments → Result ℕ String
  pub read_text_file : ℕ → String → Result String String
  pub git_status_json : ℕ → Result String String
  pub new_v4 : ℕ → ℕ

module _ (env : Env) (encoding : Encoding) (runners : Runners) (config : GatewayConfig) where
  -- The record of a request that is held for review.
  unfoldable pub hold : ℕ → String → FileSystem → ExecutionRequest → Result PendingReview String
  hold request_id purpose filesystem run_cargo_test =
      map_ok (new_with_workspace_fingerprint request_id run_cargo_test purpose) (
        map_err (λ error. "failed to fingerprint pending Cargo test workspace: " <> error)
          filesystem.compute_workspace_fingerprint)
  hold request_id purpose filesystem (write_file arguments) =
      map_ok (new_with_write_target_state request_id (write_file arguments) purpose) (
        map_err (λ error. "failed to capture pending write target state: " <> error)
          (filesystem.capture_write_target_state arguments.path))
  hold request_id purpose filesystem (add arguments) =
      ok (new_pending request_id (add arguments) purpose)
  hold request_id purpose filesystem (read_file arguments) =
      ok (new_pending request_id (read_file arguments) purpose)
  hold request_id purpose filesystem git_status = ok (new_pending request_id git_status purpose)
  hold request_id purpose filesystem (http_request arguments) =
      ok (new_pending request_id (http_request arguments) purpose)

  unfoldable pub run_http : ℕ → HttpRequestArguments → HttpMethod → Result ExecutionResult String
  run_http now arguments get = map_ok ExecutionResult.http (
      after (validate_http_destination env.url arguments.url config.http.allowed_hosts)
        (λ destination. env.http now get destination arguments.body))
  run_http now arguments post = err "http POST execution requires approval and is not enabled"

  -- The closure that runs an allowed request.
  unfoldable pub run_request : ExecutionRequest → ℕ → Result ExecutionResult String
  unfolding run_http
  run_request (http_request arguments) now = run_http now arguments arguments.method
  run_request (add arguments) now =
      map_ok ExecutionResult.integer (runners.execute_add now arguments)
  run_request (read_file arguments) now =
      map_ok ExecutionResult.text (runners.read_text_file now arguments.path)
  run_request git_status now = map_ok ExecutionResult.text (runners.git_status_json now)
  run_request (write_file arguments) now =
      err "write_file execution requires approval and is not enabled"
  run_request run_cargo_test now =
      err "run_cargo_test execution requires approval and is not enabled"

  -- A request to review is put into the store before anything is answered.
  unfoldable pub queue : ℕ → String → ExecutionRequest → Exec String (Unit {0})
  unfolding hold with_store
  queue request_id purpose request w =
      let enter : Exec String (Unit {0}) = do
        pending ← lift (hold request_id purpose (env.filesystem w.now) request)
        with_store env "pending review store lock poisoned"
            (λ io. insert_review env.json io pending)
      in enter (tick w)

  unfoldable pub execute_built : ExecuteParams → ExecutionRequest → Exec String String
  unfolding queue run_request operate
  execute_built params request w =
      let evaluation = evaluate_request_with_config env.url request (env.filesystem w.now) config in
      let request_id = runners.new_v4 w.now in
      let message : Exec String String =
        execute_message_with_audit_id env encoding request_id params.purpose evaluation
          (persist_audit_locked env) (operate env request_id (run_request request)) in
      if is_review evaluation.decision
      then (queue request_id params.purpose request >> message) (tick w)
      else message (tick w)

  unfoldable pub execute_request_with_config : ExecuteParams → Exec String String
  unfolding execute_built
  execute_request_with_config params = do
    request ← lift (build_execution_request params)
    execute_built params request
