-- ===== src/PendingReview.antt =====
-- src/pending_review.rs: a request that waits for a human decision. A `Uuid` is a number.
pub mod Equality
pub mod Persisted
pub mod State
pub mod Disk
pub mod Store
pub mod Clean
pub mod Roundtrip
pub mod Load
pub mod Loaded
pub mod Commit
pub mod Recovery
use zyguor_agent_execution_g.Base.{ℕ, String, Option, none, some}
use zyguor_agent_execution_g.Execution.{ExecutionRequest}

-- `WriteTargetState` of src/filesystem.rs
pub data WriteTargetState : Type 0 where
  missing : WriteTargetState
  existing : String → WriteTargetState

pub record PendingReview : Type 0 where
  pub request_id : ℕ
  pub request : ExecutionRequest
  pub purpose : String
  pub workspace_fingerprint : Option String
  pub write_target_state : Option WriteTargetState

-- `PendingReview::new`, a name that a module cannot share with its two like.
abbrev pub new_pending : ℕ → ExecutionRequest → String → PendingReview
new_pending request_id request purpose = record {
  request_id = request_id;
  request = request;
  purpose = purpose;
  workspace_fingerprint = none;
  write_target_state = none;
}

abbrev pub new_with_workspace_fingerprint : ℕ → ExecutionRequest → String → String → PendingReview
new_with_workspace_fingerprint request_id request purpose workspace_fingerprint = record {
  request_id = request_id;
  request = request;
  purpose = purpose;
  workspace_fingerprint = some workspace_fingerprint;
  write_target_state = none;
}

abbrev pub new_with_write_target_state :
    ℕ → ExecutionRequest → String → WriteTargetState → PendingReview
new_with_write_target_state request_id request purpose write_target_state = record {
  request_id = request_id;
  request = request;
  purpose = purpose;
  workspace_fingerprint = none;
  write_target_state = some write_target_state;
}
