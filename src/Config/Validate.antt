-- ===== src/Config/Validate.antt =====
-- The `validate` methods of src/config.rs, test by test in the source's order.
use zyguor_agent_execution_g.Base.{
  String, ◌<>◌, Bool, false, ◌||◌, List, [], ◌∷◌, Result, ok, err, ◌>>=◌, ◌>>◌, fail_if, map_err,
  ltb, nat_beq, ◌==◌, string_eq,
}
use zyguor_agent_execution_g.Base.Text.{
  trim, is_empty, to_ascii_lowercase, eq_ignore_ascii_case, to_string,
}
use zyguor_agent_execution_g.Policy.{PolicyDecision, CapabilityPolicyConfig, is_review, is_allow}
use zyguor_agent_execution_g.Http.Url.{Host, domain, ipv4, ipv6, UrlLibrary}
use zyguor_agent_execution_g.Config.{
  HttpExecutionConfig, HttpPolicyConfig, CargoTestConfig, SandboxConfig, GatewayConfig, from_secs,
  from_millis, max_http_timeout_seconds, max_http_request_body_bytes, max_http_response_body_bytes,
  max_cargo_test_timeout_seconds, max_cargo_output_bytes, max_sandbox_fuel_limit,
  max_sandbox_memory_bytes, max_sandbox_timeout_milliseconds,
}

-- The first loop of `CapabilityPolicyConfig::validate`.
reject_review : List (String × PolicyDecision) → Result (Unit {0}) String
reject_review [] = ok tt
reject_review ((name, decision) ∷ rest) = do
  fail_if (is_review decision) (
      name
      <> " policy cannot require review because reviewed execution is not supported for this capability")
  reject_review rest

-- Its second loop.
reject_allow : List (String × PolicyDecision) → Result (Unit {0}) String
reject_allow [] = ok tt
reject_allow ((name, decision) ∷ rest) = do
  fail_if (is_allow decision) (name <> " policy cannot bypass required human review")
  reject_allow rest

unfoldable pub validate_policy : CapabilityPolicyConfig → Result (Unit {0}) String
unfolding reject_review reject_allow is_review is_allow
validate_policy config = do
  reject_review (
      ("add", config.add)
      ∷ ("read_file", config.read_file)
      ∷ ("git_status", config.git_status)
      ∷ ("http_get", config.http_get)
      ∷ [])
  reject_allow (
      ("write_file", config.write_file)
      ∷ ("run_cargo_test", config.run_cargo_test)
      ∷ ("http_post", config.http_post)
      ∷ [])

-- `HashSet::insert` answers whether the name is new.
unfoldable pub contains : List String → String → Bool
contains [] name = false
contains (seen ∷ rest) name = seen == name || contains rest name

-- The `match` on the parsed host.
unfoldable pub require_domain : String → Host → Result String String
require_domain host (domain name) = ok name
require_domain host ipv4 = err ("HTTP allowed host must not be an IP literal: " <> host)
require_domain host ipv6 = err ("HTTP allowed host must not be an IP literal: " <> host)

module _ (url : UrlLibrary) where
  -- The body of the loop up to the set of hosts seen: the normalized name of a host.
  unfoldable pub normalize_host : String → Result String String
  normalize_host allowed_host = do
    let host = trim allowed_host
    fail_if (is_empty host) "HTTP allowed host cannot be empty"
    parsed_host ←
        map_err (λ error. "invalid HTTP allowed host '" <> host <> "': " <> error)
          (url.host_parse host)
    name ← require_domain host parsed_host
    fail_if (eq_ignore_ascii_case name "localhost") "localhost cannot be an HTTP allowed host"
    ok (to_ascii_lowercase name)

  unfoldable pub validate_hosts : List String → List String → Result (Unit {0}) String
  validate_hosts seen [] = ok tt
  validate_hosts seen (allowed_host ∷ rest) = do
    normalized ← normalize_host allowed_host
    fail_if (contains seen normalized) ("duplicate HTTP allowed host: " <> trim allowed_host)
    validate_hosts (normalized ∷ seen) rest

-- The numeric tests of `HttpPolicyConfig::validate`.
unfoldable pub validate_http_execution : HttpExecutionConfig → Result (Unit {0}) String
validate_http_execution execution = do
  fail_if (nat_beq execution.timeout 0) "HTTP timeout must be greater than zero"
  fail_if (nat_beq execution.max_request_body_bytes 0)
      "HTTP maximum request body size must be greater than zero"
  fail_if (nat_beq execution.max_response_body_bytes 0)
      "HTTP maximum response body size must be greater than zero"
  fail_if (ltb (from_secs max_http_timeout_seconds) execution.timeout)
      ("HTTP timeout must not exceed " <> to_string max_http_timeout_seconds <> " seconds")
  fail_if (ltb max_http_request_body_bytes execution.max_request_body_bytes) (
      "HTTP maximum request body size must not exceed "
      <> to_string max_http_request_body_bytes
      <> " bytes")
  fail_if (ltb max_http_response_body_bytes execution.max_response_body_bytes) (
      "HTTP maximum response body size must not exceed "
      <> to_string max_http_response_body_bytes
      <> " bytes")

unfoldable pub validate_http : UrlLibrary → HttpPolicyConfig → Result (Unit {0}) String
validate_http url http = do
  validate_http_execution http.execution
  validate_hosts url [] http.allowed_hosts

unfoldable pub validate_cargo_test : CargoTestConfig → Result (Unit {0}) String
validate_cargo_test cargo_test = do
  fail_if (nat_beq cargo_test.timeout 0) "Cargo test timeout must be greater than zero"
  fail_if (nat_beq cargo_test.max_stdout_bytes 0)
      "Cargo test stdout limit must be greater than zero"
  fail_if (nat_beq cargo_test.max_stderr_bytes 0)
      "Cargo test stderr limit must be greater than zero"
  fail_if (ltb (from_secs max_cargo_test_timeout_seconds) cargo_test.timeout) (
      "Cargo test timeout must not exceed "
      <> to_string max_cargo_test_timeout_seconds
      <> " seconds")
  fail_if (ltb max_cargo_output_bytes cargo_test.max_stdout_bytes)
      ("Cargo test stdout limit must not exceed " <> to_string max_cargo_output_bytes <> " bytes")
  fail_if (ltb max_cargo_output_bytes cargo_test.max_stderr_bytes)
      ("Cargo test stderr limit must not exceed " <> to_string max_cargo_output_bytes <> " bytes")

unfoldable pub validate_sandbox : SandboxConfig → Result (Unit {0}) String
validate_sandbox sandbox = do
  fail_if (nat_beq sandbox.fuel_limit 0) "sandbox fuel limit must be greater than zero"
  fail_if (nat_beq sandbox.memory_limit_bytes 0) "sandbox memory limit must be greater than zero"
  fail_if (nat_beq sandbox.timeout 0) "sandbox timeout must be greater than zero"
  fail_if (ltb max_sandbox_fuel_limit sandbox.fuel_limit)
      ("sandbox fuel limit must not exceed " <> to_string max_sandbox_fuel_limit)
  fail_if (ltb max_sandbox_memory_bytes sandbox.memory_limit_bytes)
      ("sandbox memory limit must not exceed " <> to_string max_sandbox_memory_bytes <> " bytes")
  fail_if (ltb (from_millis max_sandbox_timeout_milliseconds) sandbox.timeout) (
      "sandbox timeout must not exceed "
      <> to_string max_sandbox_timeout_milliseconds
      <> " milliseconds")

-- `GatewayConfig::validate`
unfoldable pub validate : UrlLibrary → GatewayConfig → Result (Unit {0}) String
validate url config = do
  validate_http url config.http
  validate_policy config.policy
  validate_cargo_test config.cargo_test
  validate_sandbox config.sandbox
