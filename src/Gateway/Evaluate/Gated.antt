-- ===== src/Gateway/Evaluate/Gated.antt =====
-- What an accepted configuration makes of the evaluation of a request, and what a request that
-- passes revalidation is.
use zyguor_agent_execution_g.Base.{
  String, ◌≡◌, refl, ◌≢◌, ◌↔◌, inl, inr, false, some, ok, is_err, arith, Result-cases, Option-cases,
  string_eq,
}
use text.Mathlib.TextEquality.{eq_iff}
use zyguor_agent_execution_g.Execution.{
  HttpMethod, get, post, ExecutionRequest, add, read_file, write_file, git_status, run_cargo_test,
  http_request,
}
use zyguor_agent_execution_g.Policy.{
  allow, review, evaluate_operation_with_config, block_out_of_scope,
}
use zyguor_agent_execution_g.Http.Url.{UrlLibrary}
use zyguor_agent_execution_g.Http.Destination.{ValidatedHttpUrl, validate_http_destination}
use zyguor_agent_execution_g.Config.{GatewayConfig}
use zyguor_agent_execution_g.Config.Bounds.{IsValid}
use zyguor_agent_execution_g.PendingReview.{WriteTargetState, PendingReview}
use zyguor_agent_execution_g.PendingReview.Equality.{target_beq_iff}
use zyguor_agent_execution_g.Gateway.Evaluate.{
  FileSystem, http_operation, evaluate_request_with_config, review_reason_for_request,
  revalidate_write, revalidate_cargo_test, revalidate_http, revalidate_request,
  revalidate_pending_request_with_config,
}

-- The requests that change something outside the gateway.
abbrev pub HasEffect : ExecutionRequest → Type 0
HasEffect (add arguments) = ⊥
HasEffect (read_file arguments) = ⊥
HasEffect (write_file arguments) = Unit
HasEffect git_status = ⊥
HasEffect run_cargo_test = Unit
HasEffect (http_request arguments) = arguments.method ≡ post

module _ (url : UrlLibrary) (filesystem : FileSystem) (config : GatewayConfig)
    (valid : IsValid url config) where
  -- Under an accepted configuration a write, a test run or a POST is never allowed at once, whatever the
  -- workspace answers.
  pub evaluate-gated :
      (request : ExecutionRequest)
      → HasEffect request
      → (evaluate_request_with_config url request filesystem config).decision ≢ allow
  unfolding evaluate_request_with_config evaluate_operation_with_config block_out_of_scope
      http_operation
  evaluate-gated (add a) e h = absurd e
  evaluate-gated (read_file a) e h = absurd e
  evaluate-gated git_status e h = absurd e
  evaluate-gated (write_file a) e h = ground (arith, valid.policy.write_file)
  evaluate-gated run_cargo_test e h = valid.policy.run_cargo_test h
  evaluate-gated (http_request a) e h = ground (arith, valid.policy.http_post)

  -- Under an accepted configuration a request is held for review only if the operator can
  -- approve its kind, and for the reason that its audit records will give.
  pub evaluate-review :
      (request : ExecutionRequest)
      → (evaluate_request_with_config url request filesystem config).decision ≡ review
      → review_reason_for_request request
        ≡ ok (evaluate_request_with_config url request filesystem config).reason
  unfolding evaluate_request_with_config evaluate_operation_with_config block_out_of_scope
      http_operation review_reason_for_request
  evaluate-review (add a) h = absurd (valid.policy.add h)
  evaluate-review (read_file a) h = ground (arith, valid.policy.read_file)
  evaluate-review (write_file a) h = ground arith
  evaluate-review git_status h = absurd (valid.policy.git_status h)
  evaluate-review run_cargo_test h = refl
  evaluate-review (http_request a) h = ground (arith, valid.policy.http_get)

-- What still holds of a request when it may be carried out.
abbrev pub IsCurrent :
    UrlLibrary → FileSystem → GatewayConfig → PendingReview → ExecutionRequest → Type 0
IsCurrent url filesystem config pending (add arguments) = ⊥
IsCurrent url filesystem config pending (read_file arguments) = ⊥
IsCurrent url filesystem config pending git_status = ⊥
IsCurrent url filesystem config pending (write_file arguments) =
    (is_err (filesystem.revalidate_write_target arguments.path) ≡ false)
    × ((state : WriteTargetState) × (pending.write_target_state ≡ some state)
        × (filesystem.capture_write_target_state arguments.path ≡ ok state))
IsCurrent url filesystem config pending run_cargo_test =
    (is_err (filesystem.resolve_existing_path "Cargo.toml") ≡ false)
    × ((fingerprint : String) × (pending.workspace_fingerprint ≡ some fingerprint)
        × (filesystem.compute_workspace_fingerprint ≡ ok fingerprint))
IsCurrent url filesystem config pending (http_request arguments) =
    (arguments.method ≡ post)
    × ((v : ValidatedHttpUrl) × (validate_http_destination url arguments.url
            config.http.allowed_hosts
          ≡ ok v))

write_iff :
    (filesystem : FileSystem) (pending : PendingReview) (path : String)
    → (revalidate_write filesystem pending path ≡ ok tt) ↔ (
        (is_err (filesystem.revalidate_write_target path) ≡ false)
        × ((state : WriteTargetState) × (pending.write_target_state ≡ some state)
            × (filesystem.capture_write_target_state path ≡ ok state)))
unfolding revalidate_write
write_iff filesystem pending path = elim (Result-cases (filesystem.revalidate_write_target path)) [
  | inr (e, p) ↦ (λ h. ground (arith, p), λ h. ground (arith, p))
  | inl (t, p) ↦ elim (Option-cases pending.write_target_state) [
    | inl q ↦ (λ h. ground (arith, p, q), λ h. ground (arith, p, q))
    | inr (expected, q) ↦ elim (Result-cases (filesystem.capture_write_target_state path)) [
      | inr (e, r) ↦ (λ h. ground (arith, p, q, r), λ h. ground (arith, p, q, r))
      | inl (current, r) ↦ (
        λ h. (rw p refl, (expected, q, ground (arith, p, q, r, target_beq_iff current expected))),
        λ h. ground (arith, p, q, r, target_beq_iff current expected),
      )
    ]
  ]
]

cargo_iff :
    (filesystem : FileSystem) (pending : PendingReview)
    → (revalidate_cargo_test filesystem pending ≡ ok tt) ↔ (
        (is_err (filesystem.resolve_existing_path "Cargo.toml") ≡ false)
        × ((fingerprint : String) × (pending.workspace_fingerprint ≡ some fingerprint)
            × (filesystem.compute_workspace_fingerprint ≡ ok fingerprint)))
unfolding revalidate_cargo_test
cargo_iff filesystem pending = elim (Result-cases (filesystem.resolve_existing_path "Cargo.toml")) [
  | inr (e, p) ↦ (λ h. ground (arith, p), λ h. ground (arith, p))
  | inl (t, p) ↦ elim (Option-cases pending.workspace_fingerprint) [
    | inl q ↦ (λ h. ground (arith, p, q), λ h. ground (arith, p, q))
    | inr (expected, q) ↦ elim (Result-cases filesystem.compute_workspace_fingerprint) [
      | inr (e, r) ↦ (λ h. ground (arith, p, q, r), λ h. ground (arith, p, q, r))
      | inl (current, r) ↦ (
        λ h. (rw p refl, (expected, q, ground (arith, p, q, r, eq_iff current expected))),
        λ h. ground (arith, p, q, r, eq_iff current expected),
      )
    ]
  ]
]

http_iff :
    (url : UrlLibrary) (config : GatewayConfig) (destination : String) (method : HttpMethod)
    → (revalidate_http url config destination method ≡ ok tt) ↔ (
        (method ≡ post)
        × ((v : ValidatedHttpUrl) × (validate_http_destination url destination
                config.http.allowed_hosts
              ≡ ok v)))
unfolding revalidate_http
http_iff url config destination get = (λ h. cc, λ h. cc h.0)
http_iff url config destination post =
    elim (Result-cases (validate_http_destination url destination config.http.allowed_hosts)) [
      | inr (e, p) ↦ (λ h. ground (arith, p), λ h. ground (arith, p))
      | inl (v, p) ↦ (λ h. (refl, (v, p)), λ h. rw p refl)
    ]

request_iff :
    (url : UrlLibrary) (filesystem : FileSystem) (config : GatewayConfig) (pending : PendingReview)
    (request : ExecutionRequest)
    → (revalidate_request url filesystem config pending request ≡ ok tt)
      ↔ IsCurrent url filesystem config pending request
unfolding revalidate_request
request_iff url filesystem config pending (add a) = (λ h. cc, λ h. absurd h)
request_iff url filesystem config pending (read_file a) = (λ h. cc, λ h. absurd h)
request_iff url filesystem config pending git_status = (λ h. cc, λ h. absurd h)
request_iff url filesystem config pending (write_file a) = write_iff filesystem pending a.path
request_iff url filesystem config pending run_cargo_test = cargo_iff filesystem pending
request_iff url filesystem config pending (http_request a) = http_iff url config a.url a.method

-- Revalidation passes a write exactly when its target still revalidates and is in the state that
-- was recorded, a test run exactly when Cargo.toml still resolves and the workspace has the
-- fingerprint that was recorded, and an HTTP request exactly when it is a POST whose destination
-- is still approved; it passes no other request.
pub revalidate_iff :
    (url : UrlLibrary) (pending : PendingReview) (filesystem : FileSystem) (config : GatewayConfig)
    → (revalidate_pending_request_with_config url pending filesystem config ≡ ok tt)
      ↔ IsCurrent url filesystem config pending pending.request
unfolding revalidate_pending_request_with_config
revalidate_iff url pending filesystem config =
    request_iff url filesystem config pending pending.request
