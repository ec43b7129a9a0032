-- ===== src/PendingReview/Equality.antt =====
-- The derived `PartialEq` of `PendingReview`.
use zyguor_agent_execution_g.Base.{
  ◌≡◌, refl, ◌↔◌, Bool, true, false, ◌&&◌, Option, none, some, arith, ◌==◌, nat_eq, string_eq,
  option_beq,
}
use zyguor_agent_execution_g.Execution.Equality.{request_beq, request_beq_iff, option_string_iff}
use zyguor_agent_execution_g.PendingReview.{WriteTargetState, missing, existing, PendingReview}

unfoldable pub target_beq : WriteTargetState → WriteTargetState → Bool
target_beq missing missing = true
target_beq (existing a) (existing b) = a == b
target_beq _ _ = false

pub target_beq_iff : (a b : WriteTargetState) → (target_beq a b ≡ true) ↔ (a ≡ b)
unfolding target_beq
target_beq_iff missing missing = (λ _. refl, λ _. refl)
target_beq_iff (existing a) (existing b) =
    (λ h. ground (arith, string_eq.equals_iff a b), λ h. ground (arith, string_eq.equals_iff a b))
target_beq_iff _ _ = (λ h. cc, λ h. cc)

option_target_iff : (a b : Option WriteTargetState) → (option_beq target_beq a b ≡ true) ↔ (a ≡ b)
option_target_iff none none = (λ _. refl, λ _. refl)
option_target_iff (some a) (some b) =
    (λ h. ground (arith, target_beq_iff a b), λ h. ground (arith, target_beq_iff a b))
option_target_iff _ _ = (λ h. cc, λ h. cc)

unfoldable pub review_beq : PendingReview → PendingReview → Bool
unfolding request_beq target_beq
review_beq a b =
    a.request_id == b.request_id
    && (request_beq a.request b.request
        && (a.purpose == b.purpose
            && (option_beq string_eq.equals a.workspace_fingerprint b.workspace_fingerprint
                && option_beq target_beq a.write_target_state b.write_target_state)))

-- The derived `PartialEq` of a review is equality of all fields.
pub review_beq_iff : (a b : PendingReview) → (review_beq a b ≡ true) ↔ (a ≡ b)
unfolding review_beq
review_beq_iff a b = (
  λ h. ground (
    arith,
    request_beq_iff a.request b.request,
    string_eq.equals_iff a.purpose b.purpose,
    option_string_iff a.workspace_fingerprint b.workspace_fingerprint,
    option_target_iff a.write_target_state b.write_target_state,
  ),
  λ h. ground (
    arith,
    request_beq_iff a.request b.request,
    string_eq.equals_iff a.purpose b.purpose,
    option_string_iff a.workspace_fingerprint b.workspace_fingerprint,
    option_target_iff a.write_target_state b.write_target_state,
  ),
)
