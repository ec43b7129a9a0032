-- ===== src/Config/Parse.antt =====
-- `parse_gateway_config_toml` and the file that it reads. Parsing TOML is the `toml` crate's: what
-- it makes of the text, or its displayed error, is a parameter.
use zyguor_agent_execution_g.Base.{
  ℕ, String, ◌<>◌, Option, none, some, List, Result, ok, err, ◌>>=◌, ◌>>◌, map_err, ◌==◌, string_eq,
  if◌then◌else◌,
}
use zyguor_agent_execution_g.Base.Text.{trim, to_ascii_lowercase}
use zyguor_agent_execution_g.Policy.{PolicyDecision, CapabilityPolicyConfig, allow, review, block}
use zyguor_agent_execution_g.Http.Url.{UrlLibrary}
use zyguor_agent_execution_g.Config.{
  HttpPolicyConfig, CargoTestConfig, SandboxConfig, GatewayConfig, default_config, from_secs,
  from_millis,
}
use zyguor_agent_execution_g.Config.Validate.{validate}

pub record HttpConfigFile : Type 0 where
  pub allowed_hosts : Option (List String)
  pub timeout_seconds : Option ℕ
  pub max_request_body_bytes : Option ℕ
  pub max_response_body_bytes : Option ℕ

pub record CargoTestConfigFile : Type 0 where
  pub timeout_seconds : Option ℕ
  pub max_stdout_bytes : Option ℕ
  pub max_stderr_bytes : Option ℕ

pub record SandboxConfigFile : Type 0 where
  pub fuel_limit : Option ℕ
  pub memory_limit_bytes : Option ℕ
  pub timeout_milliseconds : Option ℕ

pub record CapabilityPolicyConfigFile : Type 0 where
  pub add : Option String
  pub read_file : Option String
  pub write_file : Option String
  pub git_status : Option String
  pub run_cargo_test : Option String
  pub http_get : Option String
  pub http_post : Option String

pub record GatewayConfigFile : Type 0 where
  pub http : Option HttpConfigFile
  pub policy : Option CapabilityPolicyConfigFile
  pub cargo_test : Option CargoTestConfigFile
  pub sandbox : Option SandboxConfigFile

unfoldable pub parse_policy_decision : String → String → Result PolicyDecision String
parse_policy_decision name value =
    let other = to_ascii_lowercase (trim value) in
    if other == "allow"
    then ok allow
    else if other == "review"
    then ok review
    else if other == "block"
    then ok block
    else err (
        "invalid policy decision for " <> name <> ": " <> other
        <> "; expected allow, review, or block")

-- `if let Some(value) = ... { field = value }`
abbrev pub or_keep {ℓ} : {A : Type ℓ} → Option A → A → A
or_keep none old = old
or_keep (some new) old = new

abbrev pub in_secs : Option ℕ → ℕ → ℕ
in_secs none old = old
in_secs (some s) old = from_secs s

abbrev pub in_millis : Option ℕ → ℕ → ℕ
in_millis none old = old
in_millis (some m) old = from_millis m

unfoldable pub apply_http : Option HttpConfigFile → HttpPolicyConfig → HttpPolicyConfig
apply_http none config = config
apply_http (some http) config = record {
  allowed_hosts = or_keep http.allowed_hosts config.allowed_hosts;
  execution = record {
    timeout = in_secs http.timeout_seconds config.execution.timeout;
    max_request_body_bytes =
        or_keep http.max_request_body_bytes config.execution.max_request_body_bytes;
    max_response_body_bytes =
        or_keep http.max_response_body_bytes config.execution.max_response_body_bytes;
  };
}

unfoldable pub apply_cargo_test : Option CargoTestConfigFile → CargoTestConfig → CargoTestConfig
apply_cargo_test none config = config
apply_cargo_test (some cargo_test) config = record {
  timeout = in_secs cargo_test.timeout_seconds config.timeout;
  max_stdout_bytes = or_keep cargo_test.max_stdout_bytes config.max_stdout_bytes;
  max_stderr_bytes = or_keep cargo_test.max_stderr_bytes config.max_stderr_bytes;
}

unfoldable pub apply_sandbox : Option SandboxConfigFile → SandboxConfig → SandboxConfig
apply_sandbox none config = config
apply_sandbox (some sandbox) config = record {
  fuel_limit = or_keep sandbox.fuel_limit config.fuel_limit;
  memory_limit_bytes = or_keep sandbox.memory_limit_bytes config.memory_limit_bytes;
  timeout = in_millis sandbox.timeout_milliseconds config.timeout;
}

-- `if let Some(value) = ... { field = parse_policy_decision(name, &value)? }`
unfoldable pub or_parse : String → Option String → PolicyDecision → Result PolicyDecision String
or_parse name none old = ok old
or_parse name (some value) old = parse_policy_decision name value

unfoldable pub apply_policy :
    Option CapabilityPolicyConfigFile
    → CapabilityPolicyConfig
    → Result CapabilityPolicyConfig String
apply_policy none config = ok config
apply_policy (some policy) config = do
  add ← or_parse "add" policy.add config.add
  read_file ← or_parse "read_file" policy.read_file config.read_file
  write_file ← or_parse "write_file" policy.write_file config.write_file
  git_status ← or_parse "git_status" policy.git_status config.git_status
  run_cargo_test ← or_parse "run_cargo_test" policy.run_cargo_test config.run_cargo_test
  http_get ← or_parse "http_get" policy.http_get config.http_get
  http_post ← or_parse "http_post" policy.http_post config.http_post
  ok (record {
    add = add;
    read_file = read_file;
    write_file = write_file;
    git_status = git_status;
    run_cargo_test = run_cargo_test;
    http_get = http_get;
    http_post = http_post;
  })

-- The default configuration with what the file sets.
unfoldable pub apply_file : GatewayConfigFile → Result GatewayConfig String
apply_file file = do
  policy ← apply_policy file.policy default_config.policy
  ok (record {
    http = apply_http file.http default_config.http;
    cargo_test = apply_cargo_test file.cargo_test default_config.cargo_test;
    sandbox = apply_sandbox file.sandbox default_config.sandbox;
    policy = policy;
  })

module _ (url : UrlLibrary) (from_str : String → Result GatewayConfigFile String) where
  unfoldable pub parse_gateway_config_toml : String → Result GatewayConfig String
  parse_gateway_config_toml input = do
    file ← map_err (λ error. "failed to parse gateway configuration: " <> error) (from_str input)
    config ← apply_file file
    validate url config
    ok config

  module _ (read_to_string : String → Result String String) where
    unfoldable pub load_gateway_config_from_path : String → Result GatewayConfig String
    load_gateway_config_from_path path = do
      contents ←
          map_err (λ error. "failed to read gateway configuration '" <> path <> "': " <> error)
            (read_to_string path)
      parse_gateway_config_toml contents

    unfoldable pub resolve_gateway_config : Option String → Result GatewayConfig String
    resolve_gateway_config (some path) = load_gateway_config_from_path path
    resolve_gateway_config none = do validate url default_config; ok default_config
