-- ===== src/Examples/Config.antt =====
-- The theorems on the configuration, at the default one and at a small file.
use zyguor_agent_execution_g.Base.{arith, ◌≡◌, refl, ◌↔◌, String, none, some, Result, ok}
use zyguor_agent_execution_g.Base.Text.{to_ascii_lowercase, trim, is_empty, eq_ignore_ascii_case}
use zyguor_agent_execution_g.Policy.{review}
use zyguor_agent_execution_g.Config.{GatewayConfig, default_cargo_test, default_config}
use zyguor_agent_execution_g.Config.Validate.{
  validate, validate_http, validate_http_execution, validate_hosts, normalize_host, require_domain,
  contains, validate_policy, validate_cargo_test, validate_sandbox,
}
use zyguor_agent_execution_g.Config.Parse.{
  GatewayConfigFile, parse_policy_decision, apply_policy, apply_http, apply_cargo_test,
  apply_sandbox, apply_file, parse_gateway_config_toml, resolve_gateway_config,
}
use zyguor_agent_execution_g.Config.Bounds.{IsValid, validate_iff}
use zyguor_agent_execution_g.Config.Merged.{IsMerged, parse_gateway_config_toml-IsMerged}
use zyguor_agent_execution_g.Config.Resolve.{
  resolve_gateway_config-IsValid, parse_policy_decision_iff, word,
}
use zyguor_agent_execution_g.Examples.{library}

pub accepted : validate library default_config ≡ ok tt
unfolding validate validate_http validate_http_execution validate_hosts normalize_host is_empty trim
    require_domain eq_ignore_ascii_case contains validate_policy validate_cargo_test
    validate_sandbox
accepted = refl

validate_iff_example : (validate library default_config ≡ ok tt) ↔ IsValid library default_config
validate_iff_example = validate_iff library default_config

parse_policy_decision_iff_example :
    (parse_policy_decision "write_file" " Review " ≡ ok review)
    ↔ (to_ascii_lowercase (trim " Review ") ≡ word review)
parse_policy_decision_iff_example = parse_policy_decision_iff "write_file" " Review " review

-- A file that sets one number.
abbrev longer_tests : GatewayConfigFile
longer_tests = record {
  http = none;
  policy = none;
  cargo_test =
      some
        (record { timeout_seconds = some 120; max_stdout_bytes = none; max_stderr_bytes = none });
  sandbox = none;
}

abbrev longer_config : GatewayConfig
longer_config = record default_config {
  cargo_test = record default_cargo_test { timeout = 120_000 };
}

abbrev reads_toml : String → Result GatewayConfigFile String
reads_toml text = ok longer_tests

longer_accepted : validate library longer_config ≡ ok tt
unfolding validate validate_http validate_http_execution validate_hosts normalize_host is_empty trim
    require_domain eq_ignore_ascii_case contains validate_policy validate_cargo_test
    validate_sandbox
longer_accepted = refl

parsed : parse_gateway_config_toml library reads_toml "[cargo_test]" ≡ ok longer_config
unfolding parse_gateway_config_toml apply_file apply_policy apply_http apply_cargo_test
    apply_sandbox
parsed = ground (arith, longer_accepted)

parse_gateway_config_toml-IsMerged_example :
    IsValid library longer_config
    × ((file : GatewayConfigFile) × (reads_toml "[cargo_test]" ≡ ok file)
        × IsMerged file longer_config)
parse_gateway_config_toml-IsMerged_example =
    parse_gateway_config_toml-IsMerged library reads_toml "[cargo_test]" longer_config parsed

resolved : resolve_gateway_config library reads_toml (λ path. ok path) none ≡ ok default_config
unfolding resolve_gateway_config
resolved = ground (arith, accepted)

resolve_gateway_config-IsValid_example : IsValid library default_config
resolve_gateway_config-IsValid_example =
    resolve_gateway_config-IsValid library reads_toml (λ path. ok path) none default_config resolved
