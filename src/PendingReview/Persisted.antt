-- ===== src/PendingReview/Persisted.antt =====
-- The two conversions between a review and its persisted form.
use zyguor_agent_execution_g.Base.{ℕ, String, Option, List, Result, ok, err, ◌>>=◌, ok_or}
use zyguor_agent_execution_g.Execution.{get, post, ExecutionRequest, http_request}
use zyguor_agent_execution_g.PendingReview.{
  WriteTargetState, PendingReview, new_pending, new_with_workspace_fingerprint,
  new_with_write_target_state,
}

pub data PersistedReviewStatus : Type 0 where
  pending claimed : PersistedReviewStatus

pub data PersistedReviewOperation : Type 0 where
  write_file : (path content : String) → WriteTargetState → PersistedReviewOperation
  run_cargo_test : (workspace_fingerprint : String) → PersistedReviewOperation
  http_post : (url : String) → (body : Option String) → PersistedReviewOperation

pub record PersistedPendingReview : Type 0 where
  pub request_id : ℕ
  pub purpose : String
  pub status : PersistedReviewStatus
  pub operation : PersistedReviewOperation

pub record PersistedPendingReviewState : Type 0 where
  pub version : ℕ
  pub reviews : List PersistedPendingReview

-- `PersistedPendingReviewState::VERSION`
abbrev pub version : ℕ
version = 3

-- The `match` of the first conversion.
unfoldable pub persisted_operation :
    ExecutionRequest
    → Option String
    → Option WriteTargetState
    → Result PersistedReviewOperation String
persisted_operation (ExecutionRequest.write_file arguments) fingerprint target = do
  target_state ← ok_or target "write pending review is missing target state"
  ok (PersistedReviewOperation.write_file arguments.path arguments.content target_state)
persisted_operation ExecutionRequest.run_cargo_test fingerprint target = do
  workspace_fingerprint ←
      ok_or fingerprint "Cargo test pending review is missing workspace fingerprint"
  ok (PersistedReviewOperation.run_cargo_test workspace_fingerprint)
persisted_operation (http_request arguments) fingerprint target = elim arguments.method [
  | get ↦ err "only reviewable privileged operations can be persisted"
  | post ↦ ok (http_post arguments.url arguments.body)
]
persisted_operation _ fingerprint target =
    err "only reviewable privileged operations can be persisted"

-- `PersistedPendingReview::try_from(&PendingReview)`
unfoldable pub persist_review : PendingReview → Result PersistedPendingReview String
unfolding persisted_operation
persist_review review = do
  operation ←
      persisted_operation review.request review.workspace_fingerprint review.write_target_state
  ok (record {
    request_id = review.request_id;
    purpose = review.purpose;
    status = pending;
    operation = operation;
  })

unfoldable pub restore_operation : ℕ → String → PersistedReviewOperation → PendingReview
restore_operation request_id purpose
      (PersistedReviewOperation.write_file path content target_state) =
    new_with_write_target_state request_id
      (ExecutionRequest.write_file (record { path = path; content = content })) purpose target_state
restore_operation request_id purpose (PersistedReviewOperation.run_cargo_test fingerprint) =
    new_with_workspace_fingerprint request_id ExecutionRequest.run_cargo_test purpose fingerprint
restore_operation request_id purpose (http_post url body) =
    new_pending request_id (http_request (record { method = post; url = url; body = body })) purpose

-- `PendingReview::try_from(PersistedPendingReview)`, which never fails.
unfoldable pub restore_review : PersistedPendingReview → Result PendingReview String
unfolding restore_operation
restore_review persisted =
    ok (restore_operation persisted.request_id persisted.purpose persisted.operation)
