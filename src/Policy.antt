-- ===== src/Policy.antt =====
-- src/policy.rs: which decision the configured policy takes on each capability.
pub mod Defaults
use zyguor_agent_execution_g.Base.{◌≡◌, Bool, true, false}

pub data PolicyDecision : Type 0 where
  allow review block : PolicyDecision

pub data PolicyReason : Type 0 where
  safe write external_write code_execution destructive out_of_scope : PolicyReason

pub record PolicyEvaluation : Type 0 where
  pub decision : PolicyDecision
  pub reason : PolicyReason

pub data PolicyOperation : Type 0 where
  add read_file write_file git_status run_cargo_test http_get http_post : PolicyOperation

-- `CapabilityPolicyConfig` of src/config.rs, which this module reads.
pub record CapabilityPolicyConfig : Type 0 where
  pub add : PolicyDecision
  pub read_file : PolicyDecision
  pub write_file : PolicyDecision
  pub git_status : PolicyDecision
  pub run_cargo_test : PolicyDecision
  pub http_get : PolicyDecision
  pub http_post : PolicyDecision

unfoldable pub evaluate_operation_with_config :
    PolicyOperation → CapabilityPolicyConfig → PolicyEvaluation
evaluate_operation_with_config PolicyOperation.add config = record {
  decision = config.add;
  reason = safe;
}
evaluate_operation_with_config PolicyOperation.read_file config = record {
  decision = config.read_file;
  reason = safe;
}
evaluate_operation_with_config PolicyOperation.write_file config = record {
  decision = config.write_file;
  reason = write;
}
evaluate_operation_with_config PolicyOperation.git_status config = record {
  decision = config.git_status;
  reason = safe;
}
evaluate_operation_with_config PolicyOperation.run_cargo_test config = record {
  decision = config.run_cargo_test;
  reason = code_execution;
}
evaluate_operation_with_config PolicyOperation.http_get config = record {
  decision = config.http_get;
  reason = safe;
}
evaluate_operation_with_config PolicyOperation.http_post config = record {
  decision = config.http_post;
  reason = external_write;
}

unfoldable pub block_out_of_scope : PolicyEvaluation
block_out_of_scope = record { decision = block; reason = out_of_scope }

-- `decision == PolicyDecision::Review` and its two like.
unfoldable pub is_review : PolicyDecision → Bool
is_review review = true
is_review _ = false

unfoldable pub is_allow : PolicyDecision → Bool
is_allow allow = true
is_allow _ = false
