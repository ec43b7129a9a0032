-- ===== src/Gateway/Request.antt =====
-- `build_execution_request`: the agent's parameters become a request, or are refused.
pub mod Built
use zyguor_agent_execution_g.Base.{
  String, ◌<>◌, Bool, Option, Result, ok, err, ◌>>=◌, ◌>>◌, ok_or, fail_if, is_some, ◌==◌,
  string_eq, if◌then◌else◌,
}
use zyguor_agent_execution_g.Base.Text.{trim, is_empty, to_ascii_lowercase}
use zyguor_agent_execution_g.Execution.{
  HttpMethod, get, post, ExecutionRequest, add, read_file, write_file, git_status, run_cargo_test,
  http_request,
}
use zyguor_agent_execution_g.Gateway.Types.{ExecutionArgumentsParams, ExecuteParams}

unfoldable pub build_add : ExecutionArgumentsParams → Result ExecutionRequest String
build_add arguments = do
  left ← ok_or arguments.left "add requires arguments.left"
  right ← ok_or arguments.right "add requires arguments.right"
  ok (add (record { left = left; right = right }))

unfoldable pub build_read_file : ExecutionArgumentsParams → Result ExecutionRequest String
build_read_file arguments = do
  path ← ok_or arguments.path "read_file requires arguments.path"
  fail_if (is_empty (trim path)) "read_file path cannot be empty"
  ok (read_file (record { path = path }))

unfoldable pub build_write_file : ExecutionArgumentsParams → Result ExecutionRequest String
build_write_file arguments = do
  path ← ok_or arguments.path "write_file requires arguments.path"
  fail_if (is_empty (trim path)) "write_file path cannot be empty"
  content ← ok_or arguments.content "write_file requires arguments.content"
  ok (write_file (record { path = path; content = content }))

unfoldable pub parse_method : String → Result HttpMethod String
parse_method method =
    let other = to_ascii_lowercase (trim method) in
    if other == "get"
    then ok get
    else if other == "post"
    then ok post
    else err ("unsupported HTTP method: " <> other <> "; expected get or post")

-- A GET with a body.
unfoldable pub has_get_body : HttpMethod → Option String → Bool
has_get_body get body = is_some body
has_get_body post body = Bool.false

unfoldable pub build_http_request : ExecutionArgumentsParams → Result ExecutionRequest String
unfolding parse_method has_get_body
build_http_request arguments = do
  given ← ok_or arguments.method "http_request requires arguments.method"
  method ← parse_method given
  url ← ok_or arguments.url "http_request requires arguments.url"
  fail_if (is_empty (trim url)) "http_request URL cannot be empty"
  fail_if (has_get_body method arguments.body) "HTTP GET request must not include a body"
  ok (http_request (record { method = method; url = url; body = arguments.body }))

unfoldable pub build_execution_request : ExecuteParams → Result ExecutionRequest String
unfolding build_add build_read_file build_write_file build_http_request
build_execution_request params =
    let other = to_ascii_lowercase (trim params.operation) in
    if other == "add"
    then build_add params.arguments
    else if other == "read_file"
    then build_read_file params.arguments
    else if other == "write_file"
    then build_write_file params.arguments
    else if other == "http_request"
    then build_http_request params.arguments
    else if other == "git_status"
    then ok git_status
    else if other == "run_cargo_test"
    then ok run_cargo_test
    else err ("unsupported operation: " <> other)
