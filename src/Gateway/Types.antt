-- ===== src/Gateway/Types.antt =====
-- The types of src/main.rs, src/audit.rs and the results that src/cargo_test.rs and
-- src/http_execution.rs hand over.
use zyguor_agent_execution_g.Base.{ℕ, String, Bool, Option}
use zyguor_agent_execution_g.Policy.{PolicyDecision, PolicyReason}
use zyguor_agent_execution_g.PendingReview.{PendingReview}

-- An `i32` is its bit pattern.
pub record ExecutionArgumentsParams : Type 0 where
  pub left : Option ℕ
  pub right : Option ℕ
  pub path : Option String
  pub content : Option String
  pub method : Option String
  pub url : Option String
  pub body : Option String

-- `context` holds the purpose alone.
pub record ExecuteParams : Type 0 where
  pub operation : String
  pub arguments : ExecutionArgumentsParams
  pub purpose : String

pub record CargoTestResult : Type 0 where
  pub success : Bool
  pub exit_code : Option ℕ
  pub timed_out : Bool
  pub stdout : String
  pub stderr : String
  pub stdout_truncated : Bool
  pub stderr_truncated : Bool
  pub duration_ms : ℕ

pub record HttpExecutionResult : Type 0 where
  pub status_code : ℕ
  pub body : String
  pub body_truncated : Bool
  pub duration_ms : ℕ

pub data ExecutionResult : Type 0 where
  integer : ℕ → ExecutionResult
  text : String → ExecutionResult
  cargo_test : CargoTestResult → ExecutionResult
  http : HttpExecutionResult → ExecutionResult

pub data ReviewedOperationResult : Type 0 where
  success : Option ExecutionResult → ReviewedOperationResult
  failed_with_result : (error : String) → ExecutionResult → ReviewedOperationResult

-- src/audit.rs
pub data AuditPhase : Type 0 where
  approval rejection pre_execution completion reconciliation : AuditPhase

pub data ExecutionOutcome : Type 0 where
  success failed not_executed unknown : ExecutionOutcome

pub record AuditRecord : Type 0 where
  pub request_id : ℕ
  pub timestamp_unix : ℕ
  pub message : String
  pub phase : AuditPhase
  pub decision : PolicyDecision
  pub reason : PolicyReason
  pub execution_outcome : ExecutionOutcome

pub data ReviewedExecutionOutcome : Type 0 where
  success : ReviewedExecutionOutcome
  success_with_result : ExecutionResult → ReviewedExecutionOutcome
  execution_failed : String → ReviewedExecutionOutcome
  execution_failed_with_result : (error : String) → ExecutionResult → ReviewedExecutionOutcome
  completion_audit_failed :
      ExecutionOutcome → (error : String) → Option ExecutionResult → ReviewedExecutionOutcome

pub record GatewayResponse : Type 0 where
  pub request_id : ℕ
  pub status : String
  pub decision : PolicyDecision
  pub reason : PolicyReason
  pub executed : Bool
  pub result : Option ExecutionResult
  pub execution_outcome : ExecutionOutcome

pub data AdminCommand : Type 0 where
  approve reject acknowledge_claimed : (request_id : ℕ) → AdminCommand

pub data AdminOutcome : Type 0 where
  approved : (request_id : ℕ) → AdminOutcome
  rejected claimed_acknowledged : PendingReview → AdminOutcome
  claimed_acknowledgement_durability_uncertain : (request_id : ℕ) → (error : String) → AdminOutcome
  write_failed : (request_id : ℕ) → (error : String) → AdminOutcome
  cargo_test_completed cargo_test_failed : (request_id : ℕ) → CargoTestResult → AdminOutcome
  completion_audit_failed :
      (request_id : ℕ) → ExecutionOutcome → (error : String) → Option ExecutionResult → AdminOutcome
  cargo_test_execution_failed : (request_id : ℕ) → (error : String) → AdminOutcome
  http_post_completed http_post_failed : (request_id : ℕ) → HttpExecutionResult → AdminOutcome
  http_post_execution_failed : (request_id : ℕ) → (error : String) → AdminOutcome
