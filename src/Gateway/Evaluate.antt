-- ===== src/Gateway/Evaluate.antt =====
-- `evaluate_request_with_config` and `revalidate_pending_request_with_config`: what the policy
-- decides on a request, and whether a request that waited may still be carried out. What
-- src/filesystem.rs and src/workspace_fingerprint.rs answer, which is the work of system calls,
-- is a parameter.
pub mod Gated
use zyguor_agent_execution_g.Base.{
  String, ◌<>◌, Bool, true, false, not, Option, Result, ok, err, ◌>>=◌, ◌>>◌, ok_or, fail_if,
  map_err, map_ok, is_err, if◌then◌else◌, ◌==◌, string_eq,
}
use zyguor_agent_execution_g.Base.Paths.{FilePath}
use zyguor_agent_execution_g.Execution.{
  HttpMethod, get, post, HttpRequestArguments, ExecutionRequest, add, read_file, write_file,
  git_status, run_cargo_test, http_request,
}
use zyguor_agent_execution_g.Policy.{
  PolicyOperation, PolicyEvaluation, PolicyReason, write, code_execution, external_write,
  evaluate_operation_with_config, block_out_of_scope,
}
use zyguor_agent_execution_g.Http.Url.{UrlLibrary}
use zyguor_agent_execution_g.Http.Destination.{validate_http_destination}
use zyguor_agent_execution_g.Config.{GatewayConfig}
use zyguor_agent_execution_g.PendingReview.{WriteTargetState, PendingReview}
use zyguor_agent_execution_g.PendingReview.Equality.{target_beq}

-- What the workspace answers at one moment.
pub record FileSystem : Type 0 where
  pub resolve_existing_path : String → Result FilePath String
  pub resolve_write_target : String → Result FilePath String
  pub revalidate_write_target : String → Result FilePath String
  pub capture_write_target_state : String → Result WriteTargetState String
  pub write_text_file : String → String → Result (Unit {0}) String
  pub compute_workspace_fingerprint : Result String String

unfoldable pub http_operation : HttpMethod → PolicyOperation
http_operation get = PolicyOperation.http_get
http_operation post = PolicyOperation.http_post

unfoldable pub evaluate_request_with_config :
    UrlLibrary → ExecutionRequest → FileSystem → GatewayConfig → PolicyEvaluation
unfolding http_operation
evaluate_request_with_config url (add arguments) filesystem config =
    evaluate_operation_with_config PolicyOperation.add config.policy
evaluate_request_with_config url (http_request arguments) filesystem config =
    if is_err (validate_http_destination url arguments.url config.http.allowed_hosts)
    then block_out_of_scope
    else evaluate_operation_with_config (http_operation arguments.method) config.policy
evaluate_request_with_config url run_cargo_test filesystem config =
    evaluate_operation_with_config PolicyOperation.run_cargo_test config.policy
evaluate_request_with_config url (read_file arguments) filesystem config =
    if is_err (filesystem.resolve_existing_path arguments.path)
    then block_out_of_scope
    else evaluate_operation_with_config PolicyOperation.read_file config.policy
evaluate_request_with_config url (write_file arguments) filesystem config =
    if is_err (filesystem.resolve_write_target arguments.path)
    then block_out_of_scope
    else evaluate_operation_with_config PolicyOperation.write_file config.policy
evaluate_request_with_config url git_status filesystem config =
    evaluate_operation_with_config PolicyOperation.git_status config.policy

abbrev reason_for_method : HttpMethod → Result PolicyReason String
reason_for_method post = ok external_write
reason_for_method get = err "request is not eligible for human review"

unfoldable pub review_reason_for_request : ExecutionRequest → Result PolicyReason String
review_reason_for_request (write_file arguments) = ok write
review_reason_for_request run_cargo_test = ok code_execution
review_reason_for_request (http_request arguments) = reason_for_method arguments.method
review_reason_for_request (add arguments) = err "request is not eligible for human review"
review_reason_for_request (read_file arguments) = err "request is not eligible for human review"
review_reason_for_request git_status = err "request is not eligible for human review"

unfoldable pub revalidate_write : FileSystem → PendingReview → String → Result (Unit {0}) String
revalidate_write filesystem pending path = do
  target ←
      map_err (λ error. "pending write target is no longer valid: " <> error)
        (filesystem.revalidate_write_target path)
  expected_state ← ok_or pending.write_target_state "pending write review is missing target state"
  current_state ←
      map_err (λ error. "pending write target state could not be verified: " <> error)
        (filesystem.capture_write_target_state path)
  fail_if (not (target_beq current_state expected_state))
      "pending write target changed after review"

unfoldable pub revalidate_cargo_test : FileSystem → PendingReview → Result (Unit {0}) String
revalidate_cargo_test filesystem pending = do
  manifest ←
      map_err (λ error. "pending Cargo test workspace is no longer valid: " <> error)
        (filesystem.resolve_existing_path "Cargo.toml")
  expected_fingerprint ←
      ok_or pending.workspace_fingerprint
        "pending Cargo test review is missing workspace fingerprint"
  current_fingerprint ←
      map_err (λ error. "pending Cargo test workspace fingerprint could not be verified: " <> error)
        filesystem.compute_workspace_fingerprint
  fail_if (not (current_fingerprint == expected_fingerprint))
      "pending Cargo test workspace changed after review"

unfoldable pub revalidate_http :
    UrlLibrary → GatewayConfig → String → HttpMethod → Result (Unit {0}) String
revalidate_http url config destination post =
    map_err (λ error. "pending HTTP POST destination is no longer valid: " <> error)
      (map_ok (λ v. tt) (validate_http_destination url destination config.http.allowed_hosts))
revalidate_http url config destination get = err "pending request is not eligible for approval"

unfoldable pub revalidate_request :
    UrlLibrary
    → FileSystem
    → GatewayConfig
    → PendingReview
    → ExecutionRequest
    → Result (Unit {0}) String
unfolding revalidate_write revalidate_cargo_test revalidate_http
revalidate_request url filesystem config pending (write_file arguments) =
    revalidate_write filesystem pending arguments.path
revalidate_request url filesystem config pending run_cargo_test =
    revalidate_cargo_test filesystem pending
revalidate_request url filesystem config pending (http_request arguments) =
    revalidate_http url config arguments.url arguments.method
revalidate_request url filesystem config pending (add arguments) =
    err "pending request is not eligible for approval"
revalidate_request url filesystem config pending (read_file arguments) =
    err "pending request is not eligible for approval"
revalidate_request url filesystem config pending git_status =
    err "pending request is not eligible for approval"

unfoldable pub revalidate_pending_request_with_config :
    UrlLibrary → PendingReview → FileSystem → GatewayConfig → Result (Unit {0}) String
unfolding revalidate_request
revalidate_pending_request_with_config url pending filesystem config =
    revalidate_request url filesystem config pending pending.request
