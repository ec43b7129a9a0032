-- ===== src/Gateway/Action.antt =====
-- The reviewed operations: `execute_cargo_test_with_config` and `execute_http_post_with_config`,
-- which turn what the runner or the client answered into a success or a failure with a result.
use zyguor_agent_execution_g.Base.{
  ℕ, ◌-◌, String, ◌<>◌, ◌&&◌, not, Option, none, some, Result, ok, ◌>>=◌, ◌>>◌, ltb, leb,
  if◌then◌else◌, fail_if, map_ok,
}
use zyguor_agent_execution_g.Base.Text.{to_string}
use zyguor_agent_execution_g.Execution.{HttpMethod, post, HttpRequestArguments}
use zyguor_agent_execution_g.Execution.Equality.{method_beq}
use zyguor_agent_execution_g.Http.Url.{UrlLibrary}
use zyguor_agent_execution_g.Http.Destination.{ValidatedHttpUrl, validate_http_destination}
use zyguor_agent_execution_g.Config.{GatewayConfig}
use zyguor_agent_execution_g.Gateway.Types.{
  CargoTestResult, HttpExecutionResult, ExecutionResult, ReviewedOperationResult,
  failed_with_result,
}

-- `{code}` of an `i32`, from its bit pattern.
unfoldable pub show_i32 : ℕ → String
show_i32 code =
    if ltb code 2_147_483_648 then to_string code else "-" <> to_string (4_294_967_296 - code)

abbrev exit_error : Option ℕ → String
exit_error (some code) = "cargo test exited with status " <> show_i32 code
exit_error none = "cargo test failed without an exit status"

unfoldable pub cargo_test_error : CargoTestResult → String
unfolding show_i32
cargo_test_error result =
    if result.timed_out then "cargo test timed out" else exit_error result.exit_code

unfoldable pub tested : CargoTestResult → ReviewedOperationResult
unfolding cargo_test_error
tested result =
    let execution_result = ExecutionResult.cargo_test result in
    if result.success
    then ReviewedOperationResult.success (some execution_result)
    else failed_with_result (cargo_test_error result) execution_result

-- `run` is `CargoTestExecutor::run` on the workspace, at the expected fingerprint.
unfoldable pub execute_cargo_test_with_config :
    Result CargoTestResult String → Result ReviewedOperationResult String
unfolding tested
execute_cargo_test_with_config run = map_ok tested run

unfoldable pub answered : HttpExecutionResult → ReviewedOperationResult
answered result =
    let execution_result = ExecutionResult.http result in
    if leb 200 result.status_code && ltb result.status_code 400
    then ReviewedOperationResult.success (some execution_result)
    else failed_with_result ("HTTP POST returned status " <> to_string result.status_code)
        execution_result

-- `execute` is `HttpExecutor::new` and then `execute`.
unfoldable pub execute_http_post_with_config :
    UrlLibrary
    → (HttpMethod → ValidatedHttpUrl → Option String → Result HttpExecutionResult String)
    → HttpRequestArguments
    → GatewayConfig
    → Result ReviewedOperationResult String
unfolding answered
execute_http_post_with_config url execute arguments config = do
  fail_if (not (method_beq arguments.method post)) "reviewed HTTP execution requires POST"
  destination ← validate_http_destination url arguments.url config.http.allowed_hosts
  result ← execute post destination arguments.body
  ok (answered result)
