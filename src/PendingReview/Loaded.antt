-- ===== src/PendingReview/Loaded.antt =====
-- Whatever the state file holds, a store that loads from it is well formed.
use zyguor_agent_execution_g.Base.{
  ℕ, String, ◌≡◌, refl, inl, inr, none, List, [], ◌∷◌, ok, arith, nat_beq, Result-cases, Bool-cases,
  Option-cases,
}
use zyguor_agent_execution_g.Base.Assoc.{lookup, lookup-nil}
use zyguor_agent_execution_g.PendingReview.{PendingReview}
use zyguor_agent_execution_g.PendingReview.Persisted.{
  PersistedReviewStatus, pending, claimed, PersistedPendingReview, PersistedPendingReviewState,
  version, restore_operation, restore_review,
}
use zyguor_agent_execution_g.PendingReview.State.{
  Serde, Reviews, empty, add_review, load_reviews, from_serialized_state,
}
use zyguor_agent_execution_g.PendingReview.Clean.{
  IsCanonical, AreDisjoint, IsWellFormed, insert-IsClean, insert-AreDisjoint,
}
use zyguor_agent_execution_g.PendingReview.Roundtrip.{restore-persist}

pub empty-IsWellFormed : IsWellFormed empty
empty-IsWellFormed = record { reviews = tt; claimed = tt; disjoint = λ k. inl (lookup-nil k) }

AreDisjoint-swap : (m n : List (ℕ × PendingReview)) → AreDisjoint m n → AreDisjoint n m
AreDisjoint-swap m n h k = ground (arith, h k)

add-IsWellFormed :
    (status : PersistedReviewStatus) (review : PendingReview) (acc : Reviews)
    → IsCanonical review
    → lookup review.request_id acc.reviews ≡ none
    → lookup review.request_id acc.claimed_reviews ≡ none
    → IsWellFormed acc
    → IsWellFormed (add_review status review acc)
unfolding add_review
add-IsWellFormed pending review acc fits e f w = record {
  reviews = insert-IsClean review.request_id review acc.reviews refl fits w.reviews;
  claimed = w.claimed;
  disjoint =
      insert-AreDisjoint review.request_id review acc.reviews acc.claimed_reviews w.disjoint f;
}
add-IsWellFormed claimed review acc fits e f w = record {
  reviews = w.reviews;
  claimed = insert-IsClean review.request_id review acc.claimed_reviews refl fits w.claimed;
  disjoint = AreDisjoint-swap _ acc.reviews (
      insert-AreDisjoint review.request_id review acc.claimed_reviews acc.reviews
        (AreDisjoint-swap acc.reviews acc.claimed_reviews w.disjoint) e);
}

load_reviews-IsWellFormed :
    (acc : Reviews) (ps : List PersistedPendingReview) (s : Reviews)
    → IsWellFormed acc
    → load_reviews acc ps ≡ ok s
    → IsWellFormed s
unfolding load_reviews restore_review
load_reviews-IsWellFormed acc [] s w h = let e : acc ≡ s = ground arith in rw (← e) w
load_reviews-IsWellFormed acc (p ∷ ps) s w h =
    let review = restore_operation p.request_id p.purpose p.operation in
    elim (Option-cases (lookup review.request_id acc.reviews)) [
      | inr (other, e) ↦ ground (arith, e)
      | inl e ↦ elim (Option-cases (lookup review.request_id acc.claimed_reviews)) [
        | inr (other, f) ↦ ground (arith, e, f)
        | inl f ↦
            load_reviews-IsWellFormed (add_review p.status review acc) ps s
              (add-IsWellFormed p.status review acc (restore-persist p review refl).0 e f w)
              (ground (arith, e, f))
      ]
    ]

-- Whatever the text, a store that loads from it is well formed: every review stands under its own
-- id, once, in one of the two maps, and is reviewable with the evidence of its kind; and the text
-- is of the supported version.
pub from_serialized-IsWellFormed :
    (json : Serde) (text : String) (s : Reviews)
    → from_serialized_state json text ≡ ok s
    → IsWellFormed s
      × ((state : PersistedPendingReviewState) × (json.from_str text ≡ ok state)
          × (state.version ≡ version))
unfolding from_serialized_state
from_serialized-IsWellFormed json text s h = elim (Result-cases (json.from_str text)) [
  | inr (error, p) ↦ ground (arith, p)
  | inl (state, p) ↦ elim (Bool-cases (nat_beq state.version version)) [
    | inr other ↦ ground (arith, p, other)
    | inl same ↦ (
      load_reviews-IsWellFormed empty state.reviews s empty-IsWellFormed (ground (arith, p, same)),
      (state, p, ground (arith, same)),
    )
  ]
]
