-- ===== src/PendingReview/State.antt =====
-- The text of the state file: `serialize_state` and `from_serialized_state`. JSON is serde's: the
-- two functions of `Serde` are parameters, with their errors as they are displayed.
use zyguor_agent_execution_g.Base.{
  String, ◌<>◌, ◌≡◌, ◌||◌, not, List, [], ◌∷◌, ◌++◌, Result, ok, ◌>>=◌, ◌>>◌, fail_if, map_err,
  nat_beq,
}
use zyguor_agent_execution_g.Base.Assoc.{Assoc, insert, contains_key}
use zyguor_agent_execution_g.Base.Text.{to_string}
use zyguor_agent_execution_g.PendingReview.{PendingReview}
use zyguor_agent_execution_g.PendingReview.Persisted.{
  PersistedReviewStatus, pending, claimed, PersistedPendingReview, PersistedPendingReviewState,
  version, persist_review, restore_review,
}

-- `serde_json::to_string_pretty` and `serde_json::from_str`, at the type of the state file.
pub record Serde : Type 0 where
  pub to_string_pretty : PersistedPendingReviewState → Result String String
  pub from_str : String → Result PersistedPendingReviewState String

-- What serde documents of the derived implementations: reading a printed value gives it back.
pub record IsSerde (json : Serde) : Type 0 where
  pub reads_back :
      (state : PersistedPendingReviewState) (text : String)
      → json.to_string_pretty state ≡ ok text
      → json.from_str text ≡ ok state

-- The two maps of the store.
pub record Reviews : Type 0 where
  pub reviews : Assoc PendingReview
  pub claimed_reviews : Assoc PendingReview

-- One of the two loops over `values()`, with the status that it writes.
unfoldable pub persist_all :
    PersistedReviewStatus → Assoc PendingReview → Result (List PersistedPendingReview) String
persist_all status [] = ok []
persist_all status ((k, review) ∷ rest) = do
  persisted ← persist_review review
  others ← persist_all status rest
  ok (record persisted { status = status } ∷ others)

unfoldable pub persisted_reviews : Reviews → Result (List PersistedPendingReview) String
unfolding persist_all
persisted_reviews store = do
  waiting ← persist_all pending store.reviews
  taken ← persist_all claimed store.claimed_reviews
  ok (waiting ++ taken)

-- The `match status` of the loading loop.
unfoldable pub add_review : PersistedReviewStatus → PendingReview → Reviews → Reviews
add_review pending review store = record store {
  reviews = insert review.request_id review store.reviews;
}
add_review claimed review store = record store {
  claimed_reviews = insert review.request_id review store.claimed_reviews;
}

unfoldable pub load_reviews : Reviews → List PersistedPendingReview → Result Reviews String
unfolding add_review
load_reviews store [] = ok store
load_reviews store (persisted ∷ rest) = do
  review ← restore_review persisted
  fail_if
      (contains_key review.request_id store.reviews
        || contains_key review.request_id store.claimed_reviews)
      "duplicate pending review request ID in persisted state"
  load_reviews (add_review persisted.status review store) rest

abbrev pub empty : Reviews
empty = record { reviews = []; claimed_reviews = [] }

module _ (json : Serde) where
  unfoldable pub serialize_state : Reviews → Result String String
  serialize_state store = do
    reviews ← persisted_reviews store
    map_err (λ error. "failed to serialize pending review state: " <> error)
        (json.to_string_pretty (record { version = version; reviews = reviews }))

  unfoldable pub from_serialized_state : String → Result Reviews String
  from_serialized_state input = do
    state ←
        map_err (λ error. "failed to deserialize pending review state: " <> error)
          (json.from_str input)
    fail_if (not (nat_beq state.version version))
        ("unsupported pending review state version: " <> to_string state.version)
    load_reviews empty state.reviews
