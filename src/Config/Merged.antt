-- ===== src/Config/Merged.antt =====
-- A configuration file against the configuration that it gives, setting by setting.
use mathlib.Core.Path.{subst}
use zyguor_agent_execution_g.Base.{String, ◌≡◌, Result, ok, bind-ok, arith}
use zyguor_agent_execution_g.Config.{GatewayConfig, default_config}
use zyguor_agent_execution_g.Config.Bounds.{IsValid}
use zyguor_agent_execution_g.Config.Resolve.{parse_gateway_config_toml-IsValid}
use zyguor_agent_execution_g.Http.Url.{UrlLibrary}
use zyguor_agent_execution_g.Config.Parse.{
  GatewayConfigFile, apply_http, apply_cargo_test, apply_sandbox, apply_policy, apply_file,
  parse_gateway_config_toml,
}
use zyguor_agent_execution_g.Config.Settings.{
  setting, Follows, Exactly, Seconds, Says, apply_http-Follows, apply_cargo_test-Follows,
  apply_sandbox-Follows, apply_policy-Follows,
}

-- Every value of the configuration follows the file's setting for it.
pub record IsMerged (file : GatewayConfigFile) (c : GatewayConfig) : Type 0 where
  pub allowed_hosts :
      Follows
        (setting file.http λ s. s.allowed_hosts)
        Exactly
        default_config.http.allowed_hosts
        c.http.allowed_hosts
  pub http_timeout :
      Follows
        (setting file.http λ s. s.timeout_seconds)
        Seconds
        default_config.http.execution.timeout
        c.http.execution.timeout
  pub max_request_body_bytes :
      Follows
        (setting file.http λ s. s.max_request_body_bytes)
        Exactly
        default_config.http.execution.max_request_body_bytes
        c.http.execution.max_request_body_bytes
  pub max_response_body_bytes :
      Follows
        (setting file.http λ s. s.max_response_body_bytes)
        Exactly
        default_config.http.execution.max_response_body_bytes
        c.http.execution.max_response_body_bytes
  pub cargo_test_timeout :
      Follows
        (setting file.cargo_test λ s. s.timeout_seconds)
        Seconds
        default_config.cargo_test.timeout
        c.cargo_test.timeout
  pub max_stdout_bytes :
      Follows
        (setting file.cargo_test λ s. s.max_stdout_bytes)
        Exactly
        default_config.cargo_test.max_stdout_bytes
        c.cargo_test.max_stdout_bytes
  pub max_stderr_bytes :
      Follows
        (setting file.cargo_test λ s. s.max_stderr_bytes)
        Exactly
        default_config.cargo_test.max_stderr_bytes
        c.cargo_test.max_stderr_bytes
  pub fuel_limit :
      Follows
        (setting file.sandbox λ s. s.fuel_limit)
        Exactly
        default_config.sandbox.fuel_limit
        c.sandbox.fuel_limit
  pub memory_limit_bytes :
      Follows
        (setting file.sandbox λ s. s.memory_limit_bytes)
        Exactly
        default_config.sandbox.memory_limit_bytes
        c.sandbox.memory_limit_bytes
  pub sandbox_timeout :
      Follows
        (setting file.sandbox λ s. s.timeout_milliseconds)
        Exactly
        default_config.sandbox.timeout
        c.sandbox.timeout
  pub add : Follows (setting file.policy λ s. s.add) Says default_config.policy.add c.policy.add
  pub read_file :
      Follows
        (setting file.policy λ s. s.read_file)
        Says
        default_config.policy.read_file
        c.policy.read_file
  pub write_file :
      Follows
        (setting file.policy λ s. s.write_file)
        Says
        default_config.policy.write_file
        c.policy.write_file
  pub git_status :
      Follows
        (setting file.policy λ s. s.git_status)
        Says
        default_config.policy.git_status
        c.policy.git_status
  pub run_cargo_test :
      Follows
        (setting file.policy λ s. s.run_cargo_test)
        Says
        default_config.policy.run_cargo_test
        c.policy.run_cargo_test
  pub http_get :
      Follows
        (setting file.policy λ s. s.http_get)
        Says
        default_config.policy.http_get
        c.policy.http_get
  pub http_post :
      Follows
        (setting file.policy λ s. s.http_post)
        Says
        default_config.policy.http_post
        c.policy.http_post

same_config : (c d : GatewayConfig) → ◌≡◌ {A = Result GatewayConfig String} (ok c) (ok d) → c ≡ d
same_config c d h = ground (arith, h)

apply_file-IsMerged :
    (file : GatewayConfigFile) (c : GatewayConfig) → apply_file file ≡ ok c → IsMerged file c
unfolding apply_file
apply_file-IsMerged file c h =
    let (policy, p, h1) = bind-ok (apply_policy file.policy default_config.policy) _ c h in
    let (hosts, timeout, request, response) = apply_http-Follows file.http in
    let (test_timeout, stdout, stderr) = apply_cargo_test-Follows file.cargo_test in
    let (fuel, memory, sandbox_timeout) = apply_sandbox-Follows file.sandbox in
    let (a, b, d, e, f, g, i) = apply_policy-Follows file.policy policy p in
    let made : GatewayConfig = record {
      http = apply_http file.http default_config.http;
      cargo_test = apply_cargo_test file.cargo_test default_config.cargo_test;
      sandbox = apply_sandbox file.sandbox default_config.sandbox;
      policy = policy;
    } in
    let merged : IsMerged file made = record {
      allowed_hosts = hosts;
      http_timeout = timeout;
      max_request_body_bytes = request;
      max_response_body_bytes = response;
      cargo_test_timeout = test_timeout;
      max_stdout_bytes = stdout;
      max_stderr_bytes = stderr;
      fuel_limit = fuel;
      memory_limit_bytes = memory;
      sandbox_timeout = sandbox_timeout;
      add = a;
      read_file = b;
      write_file = d;
      git_status = e;
      run_cargo_test = f;
      http_get = g;
      http_post = i;
    } in
    subst (λ q. IsMerged file q) (same_config made c h1) merged

-- A text that parses gives a valid configuration in which every value is the file's setting for
-- it, or the default where the file does not set it: seconds are a thousand milliseconds, and a
-- policy word is read up to the case of ASCII letters and white space around it.
pub parse_gateway_config_toml-IsMerged :
    (url : UrlLibrary) (from_str : String → Result GatewayConfigFile String) (input : String)
    (c : GatewayConfig)
    → parse_gateway_config_toml url from_str input ≡ ok c
    → IsValid url c × ((file : GatewayConfigFile) × (from_str input ≡ ok file) × IsMerged file c)
parse_gateway_config_toml-IsMerged url from_str input c h =
    let (valid, (file, read, applied)) = parse_gateway_config_toml-IsValid url from_str input c h in
    (valid, (file, read, apply_file-IsMerged file c applied))
