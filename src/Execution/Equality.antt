-- ===== src/Execution/Equality.antt =====
-- The derived `PartialEq` of the types of src/execution.rs.
use zyguor_agent_execution_g.Base.{
  String, ◌≡◌, refl, ◌↔◌, Bool, true, false, ◌&&◌, Option, none, some, arith, ◌==◌, nat_eq,
  string_eq, option_beq,
}
use zyguor_agent_execution_g.Execution.{
  HttpMethod, get, post, ExecutionRequest, add, read_file, write_file, git_status, run_cargo_test,
  http_request,
}

unfoldable pub method_beq : HttpMethod → HttpMethod → Bool
method_beq get get = true
method_beq post post = true
method_beq _ _ = false

pub method_beq_iff : (a b : HttpMethod) → (method_beq a b ≡ true) ↔ (a ≡ b)
unfolding method_beq
method_beq_iff get get = (λ _. refl, λ _. refl)
method_beq_iff post post = (λ _. refl, λ _. refl)
method_beq_iff _ _ = (λ h. cc, λ h. cc)

pub option_string_iff : (a b : Option String) → (option_beq (string_eq.equals) a b ≡ true) ↔ (a ≡ b)
option_string_iff none none = (λ _. refl, λ _. refl)
option_string_iff (some a) (some b) =
    (λ h. ground (arith, string_eq.equals_iff a b), λ h. ground (arith, string_eq.equals_iff a b))
option_string_iff _ _ = (λ h. cc, λ h. cc)

unfoldable pub request_beq : ExecutionRequest → ExecutionRequest → Bool
unfolding method_beq
request_beq (add a) (add b) = a.left == b.left && a.right == b.right
request_beq (read_file a) (read_file b) = a.path == b.path
request_beq (write_file a) (write_file b) = a.path == b.path && a.content == b.content
request_beq git_status git_status = true
request_beq run_cargo_test run_cargo_test = true
request_beq (http_request a) (http_request b) =
    method_beq a.method b.method && (a.url == b.url && option_beq string_eq.equals a.body b.body)
request_beq _ _ = false

pub request_beq_iff : (a b : ExecutionRequest) → (request_beq a b ≡ true) ↔ (a ≡ b)
unfolding request_beq
request_beq_iff (add a) (add b) = (λ h. ground arith, λ h. ground arith)
request_beq_iff (read_file a) (read_file b) = (
  λ h. ground (arith, string_eq.equals_iff a.path b.path),
  λ h. ground (arith, string_eq.equals_iff a.path b.path),
)
request_beq_iff (write_file a) (write_file b) = (
  λ h. ground (arith, string_eq.equals_iff a.path b.path, string_eq.equals_iff a.content b.content),
  λ h. ground (arith, string_eq.equals_iff a.path b.path, string_eq.equals_iff a.content b.content),
)
request_beq_iff git_status git_status = (λ _. refl, λ _. refl)
request_beq_iff run_cargo_test run_cargo_test = (λ _. refl, λ _. refl)
request_beq_iff (http_request a) (http_request b) = (
  λ h. ground (
    arith,
    method_beq_iff a.method b.method,
    string_eq.equals_iff a.url b.url,
    option_string_iff a.body b.body,
  ),
  λ h. ground (
    arith,
    method_beq_iff a.method b.method,
    string_eq.equals_iff a.url b.url,
    option_string_iff a.body b.body,
  ),
)
request_beq_iff _ _ = (λ h. cc, λ h. cc)
