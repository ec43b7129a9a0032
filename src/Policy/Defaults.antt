-- ===== src/Policy/Defaults.antt =====
-- The policy of a gateway that no file configures.
use zyguor_agent_execution_g.Policy.{CapabilityPolicyConfig, allow, review}

-- `CapabilityPolicyConfig::default` of src/config.rs
abbrev pub default_policy : CapabilityPolicyConfig
default_policy = record {
  add = allow;
  read_file = allow;
  write_file = review;
  git_status = allow;
  run_cargo_test = review;
  http_get = allow;
  http_post = review;
}
