-- ===== src/PendingReview/Clean.antt =====
-- Well-formed stores: what the gateway's own reviews and the store's operations keep true.
use zyguor_agent_execution_g.Base.{
  ℕ, String, ◌≡◌, ◌⊎◌, inl, inr, Option, none, some, [], ◌∷◌, arith, nat_beq, Bool-cases,
}
use zyguor_agent_execution_g.Base.Assoc.{
  Assoc, lookup, insert, remove, lookup-insert, lookup-remove,
}
use zyguor_agent_execution_g.Execution.{
  post, ExecutionRequest, write_file, run_cargo_test, http_request,
}
use zyguor_agent_execution_g.PendingReview.{WriteTargetState, PendingReview}
use zyguor_agent_execution_g.PendingReview.State.{Reviews}

-- A reviewable request, with exactly the evidence that its kind is reviewed by.
abbrev pub Fits : ExecutionRequest → Option String → Option WriteTargetState → Type 0
Fits (write_file arguments) none (some target) = Unit
Fits run_cargo_test (some fingerprint) none = Unit
Fits (http_request arguments) none none = arguments.method ≡ post
Fits _ _ _ = ⊥

abbrev pub IsCanonical : PendingReview → Type 0
IsCanonical review = Fits review.request review.workspace_fingerprint review.write_target_state

-- Every review stands under its own id, once.
abbrev pub IsClean : Assoc PendingReview → Type 0
IsClean [] = Unit
IsClean ((k, review) ∷ rest) =
    (review.request_id ≡ k) × IsCanonical review × (lookup k rest ≡ none) × IsClean rest

-- No id is in both maps.
abbrev pub AreDisjoint : Assoc PendingReview → Assoc PendingReview → Type 0
AreDisjoint m n = (k : ℕ) → (lookup k m ≡ none) ⊎ (lookup k n ≡ none)

pub record IsWellFormed (s : Reviews) : Type 0 where
  pub reviews : IsClean s.reviews
  pub claimed : IsClean s.claimed_reviews
  pub disjoint : AreDisjoint s.reviews s.claimed_reviews

-- Two stores that answer every lookup alike.
pub record SameView (s t : Reviews) : Type 0 where
  pub reviews : (k : ℕ) → lookup k s.reviews ≡ lookup k t.reviews
  pub claimed : (k : ℕ) → lookup k s.claimed_reviews ≡ lookup k t.claimed_reviews

pub remove-IsClean : (k : ℕ) (m : Assoc PendingReview) → IsClean m → IsClean (remove k m)
unfolding remove
remove-IsClean k [] c = tt
remove-IsClean k ((j, review) ∷ m) c = ground (arith, remove-IsClean k m c.3, lookup-remove k j m)

pub insert-IsClean :
    (k : ℕ) (review : PendingReview) (m : Assoc PendingReview)
    → review.request_id ≡ k
    → IsCanonical review
    → IsClean m
    → IsClean (insert k review m)
unfolding insert
insert-IsClean k review m e fits c =
    (e, fits, ground (arith, lookup-remove k k m), remove-IsClean k m c)

-- What a lookup in a clean map finds.
pub lookup-IsClean :
    (k : ℕ) (m : Assoc PendingReview) (review : PendingReview)
    → IsClean m
    → lookup k m ≡ some review
    → (review.request_id ≡ k) × IsCanonical review
unfolding lookup
lookup-IsClean k [] review c h = cc
lookup-IsClean k ((j, other) ∷ m) review c h = elim (Bool-cases (nat_beq j k)) [
  | inl hit ↦ let e : other ≡ review = ground (arith, hit) in rw (← e) (ground (arith, hit), c.1)
  | inr miss ↦ lookup-IsClean k m review c.3 (ground (arith, miss))
]

-- The maps after the moves of the store's operations.
module _ (k : ℕ) (review : PendingReview) (m n : Assoc PendingReview) (h : AreDisjoint m n) where
  pub insert-AreDisjoint : lookup k n ≡ none → AreDisjoint (insert k review m) n
  insert-AreDisjoint e j = ground (arith, h j, lookup-insert k j review m)

  pub remove-AreDisjoint : AreDisjoint (remove k m) n
  remove-AreDisjoint j = ground (arith, h j, lookup-remove k j m)

  pub remove-AreDisjoint_right : AreDisjoint m (remove k n)
  remove-AreDisjoint_right j = ground (arith, h j, lookup-remove k j n)

  pub move-AreDisjoint : AreDisjoint (remove k m) (insert k review n)
  move-AreDisjoint j = ground (arith, h j, lookup-remove k j m, lookup-insert k j review n)

  pub move_back-AreDisjoint : AreDisjoint (insert k review m) (remove k n)
  move_back-AreDisjoint j = ground (arith, h j, lookup-insert k j review m, lookup-remove k j n)

-- Taking back an insertion, and putting back what was removed, change no lookup.
pub lookup-undo_insert :
    (k : ℕ) (review : PendingReview) (m : Assoc PendingReview)
    → lookup k m ≡ none
    → (j : ℕ) → lookup j (remove k (insert k review m)) ≡ lookup j m
lookup-undo_insert k review m e j =
    ground (arith, lookup-remove k j (insert k review m), lookup-insert k j review m)

pub lookup-undo_remove :
    (k : ℕ) (review : PendingReview) (m : Assoc PendingReview)
    → lookup k m ≡ some review
    → (j : ℕ) → lookup j (insert k review (remove k m)) ≡ lookup j m
lookup-undo_remove k review m e j =
    ground (arith, lookup-insert k j review (remove k m), lookup-remove k j m)
