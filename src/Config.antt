-- ===== src/Config.antt =====
-- src/config.rs: the gateway's configuration, its defaults and its fixed upper bounds. A
-- `Duration` is its number of milliseconds.
pub mod Validate
pub mod Parse
pub mod Hosts
pub mod Bounds
pub mod Settings
pub mod Merged
pub mod Resolve
use zyguor_agent_execution_g.Base.{ℕ, ◌*◌, String, List, [], ◌∷◌}
use zyguor_agent_execution_g.Policy.{CapabilityPolicyConfig}
use zyguor_agent_execution_g.Policy.Defaults.{default_policy}

abbrev pub max_http_timeout_seconds : ℕ
max_http_timeout_seconds = 60

abbrev pub max_http_request_body_bytes : ℕ
max_http_request_body_bytes = 1024 * 1024

abbrev pub max_http_response_body_bytes : ℕ
max_http_response_body_bytes = 4 * 1024 * 1024

abbrev pub max_cargo_test_timeout_seconds : ℕ
max_cargo_test_timeout_seconds = 10 * 60

abbrev pub max_cargo_output_bytes : ℕ
max_cargo_output_bytes = 1024 * 1024

abbrev pub max_sandbox_fuel_limit : ℕ
max_sandbox_fuel_limit = 10_000_000

abbrev pub max_sandbox_memory_bytes : ℕ
max_sandbox_memory_bytes = 64 * 1024 * 1024

abbrev pub max_sandbox_timeout_milliseconds : ℕ
max_sandbox_timeout_milliseconds = 5_000

-- `Duration::from_secs`, `Duration::from_millis`
abbrev pub from_secs : ℕ → ℕ
from_secs s = s * 1000

abbrev pub from_millis : ℕ → ℕ
from_millis m = m

-- src/http_execution.rs
pub record HttpExecutionConfig : Type 0 where
  pub timeout : ℕ
  pub max_request_body_bytes : ℕ
  pub max_response_body_bytes : ℕ

abbrev pub default_http_execution : HttpExecutionConfig
default_http_execution = record {
  timeout = from_secs 10;
  max_request_body_bytes = 64 * 1024;
  max_response_body_bytes = 256 * 1024;
}

pub record HttpPolicyConfig : Type 0 where
  pub allowed_hosts : List String
  pub execution : HttpExecutionConfig

abbrev pub default_http : HttpPolicyConfig
default_http = record { allowed_hosts = "api.example.com" ∷ []; execution = default_http_execution }

-- src/cargo_test.rs
pub record CargoTestConfig : Type 0 where
  pub timeout : ℕ
  pub max_stdout_bytes : ℕ
  pub max_stderr_bytes : ℕ

abbrev pub default_cargo_test : CargoTestConfig
default_cargo_test = record {
  timeout = from_secs 60;
  max_stdout_bytes = 64 * 1024;
  max_stderr_bytes = 64 * 1024;
}

-- src/sandbox.rs
pub record SandboxConfig : Type 0 where
  pub fuel_limit : ℕ
  pub memory_limit_bytes : ℕ
  pub timeout : ℕ

abbrev pub default_sandbox : SandboxConfig
default_sandbox = record {
  fuel_limit = 10_000;
  memory_limit_bytes = 2 * 1024 * 1024;
  timeout = from_millis 250;
}

pub record GatewayConfig : Type 0 where
  pub http : HttpPolicyConfig
  pub cargo_test : CargoTestConfig
  pub sandbox : SandboxConfig
  pub policy : CapabilityPolicyConfig

-- `GatewayConfig::default`
abbrev pub default_config : GatewayConfig
default_config = record {
  http = default_http;
  cargo_test = default_cargo_test;
  sandbox = default_sandbox;
  policy = default_policy;
}
