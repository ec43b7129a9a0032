-- ===== src/PendingReview/Store.antt =====
-- `PendingReviewStore`: the operations on the two maps, each persisted at once and rolled back
-- when the save failed before its commit.
use zyguor_agent_execution_g.Base.{
  ℕ, String, ◌<>◌, not, Option, none, some, Result, ok, err, if◌then◌else◌,
}
use zyguor_agent_execution_g.Base.Assoc.{Assoc, lookup, insert, remove, contains_key}
use zyguor_agent_execution_g.Base.Lists.{length}
use zyguor_agent_execution_g.Base.Paths.{FilePath}
use zyguor_agent_execution_g.PendingReview.{PendingReview}
use zyguor_agent_execution_g.PendingReview.Equality.{review_beq}
use zyguor_agent_execution_g.PendingReview.State.{Serde, Reviews, empty}
use zyguor_agent_execution_g.PendingReview.Disk.{
  before_commit, after_commit, Disk, SaveIo, Saved, save_to_anchored_path_classified,
}

-- The open directory is its descriptor.
pub record PendingReviewStore : Type 0 where
  pub maps : Reviews
  pub open maps use *
  pub persistence_path : Option FilePath
  pub persistence_parent : Option ℕ

-- `PendingReviewStore::new`
abbrev pub new_store : PendingReviewStore
new_store = record { maps = empty; persistence_path = none; persistence_parent = none }

pub data ConsumeClaimedFailure : Type 0 where
  not_committed durability_uncertain : String → ConsumeClaimedFailure

-- `Display` of the failure.
abbrev pub display_consume : ConsumeClaimedFailure → String
display_consume (not_committed message) = message
display_consume (durability_uncertain message) = message

-- The store in memory and the directory that it is saved to.
pub record Durable : Type 0 where
  pub store : PendingReviewStore
  pub disk : Disk

abbrev pub with_reviews :
    PendingReviewStore → Assoc PendingReview → Assoc PendingReview → PendingReviewStore
with_reviews store reviews claimed_reviews = record store {
  maps = record { reviews = reviews; claimed_reviews = claimed_reviews };
}

unfoldable pub get : ℕ → PendingReviewStore → Option PendingReview
get request_id store = lookup request_id store.reviews

unfoldable pub get_claimed : ℕ → PendingReviewStore → Option PendingReview
get_claimed request_id store = lookup request_id store.claimed_reviews

unfoldable pub claimed_count : PendingReviewStore → ℕ
claimed_count store = length store.claimed_reviews

-- What the callers of `persist` do: keep the new store when the save passed its commit, take
-- the rolled back one otherwise, and report the failure under a prefix.
unfoldable pub settle {ℓ} :
    {A : Type ℓ}
    → A
    → String
    → PendingReviewStore
    → PendingReviewStore
    → Saved
    → Result A String × Durable
settle a prefix new old (ok u, disk) = (ok a, record { store = new; disk = disk })
settle a prefix new old (err (before_commit m), disk) =
    (err (prefix <> m), record { store = old; disk = disk })
settle a prefix new old (err (after_commit m), disk) =
    (err (prefix <> m), record { store = new; disk = disk })

-- The `match` on the failure in `consume_claimed_classified`.
unfoldable pub settle_consume :
    PendingReview
    → PendingReviewStore
    → PendingReviewStore
    → Saved
    → Result PendingReview ConsumeClaimedFailure × Durable
settle_consume claimed new old (ok u, disk) = (ok claimed, record { store = new; disk = disk })
settle_consume claimed new old (err (before_commit m), disk) = (
  err (not_committed ("failed to persist consumed claimed review: " <> m)),
  record { store = old; disk = disk },
)
settle_consume claimed new old (err (after_commit m), disk) = (
  err (
      durability_uncertain
        ("claimed review was consumed but persistence durability is uncertain: " <> m)),
  record { store = new; disk = disk },
)

module _ (json : Serde) (io : SaveIo) where
  unfoldable pub persist : PendingReviewStore → Disk → Saved
  persist store disk = elim store.persistence_path [
    | some path ↦ elim store.persistence_parent [
      | some parent_directory ↦ save_to_anchored_path_classified json io store.maps path disk
      | none ↦ (err (before_commit "pending review persistence state is incomplete"), disk)
    ]
    | none ↦ elim store.persistence_parent [
      | some parent_directory ↦
          (err (before_commit "pending review persistence state is incomplete"), disk)
      | none ↦ (ok tt, disk)
    ]
  ]

  unfoldable pub insert_review : PendingReview → Durable → Result (Unit {0}) String × Durable
  unfolding settle
  insert_review review d =
      let s = d.store in
      if contains_key review.request_id s.reviews
      then (err "pending review request ID already exists", d)
      else let added = insert review.request_id review s.reviews in
        let new = with_reviews s added s.claimed_reviews in
        let old = with_reviews s (remove review.request_id added) s.claimed_reviews in
        settle tt "failed to persist pending review insertion: " new old (persist new d.disk)

  -- `PendingReviewStore::take`
  unfoldable pub take : ℕ → Durable → Result (Option PendingReview) String × Durable
  unfolding settle
  take request_id d =
      let s = d.store in
      elim (lookup request_id s.reviews) [
        | none ↦ (ok none, d)
        | some review ↦
            let left = remove request_id s.reviews in
            let new = with_reviews s left s.claimed_reviews in
            let old = with_reviews s (insert request_id review left) s.claimed_reviews in
            settle (some review) "failed to persist pending review removal: " new old
              (persist new d.disk)
      ]

  unfoldable pub claim : ℕ → Durable → Result PendingReview String × Durable
  unfolding settle
  claim request_id d =
      let s = d.store in
      if contains_key request_id s.claimed_reviews
      then (err "pending review request is already claimed", d)
      else elim (lookup request_id s.reviews) [
        | none ↦ (err "pending review request not found", d)
        | some review ↦
            let left = remove request_id s.reviews in
            let taken = insert request_id review s.claimed_reviews in
            let new = with_reviews s left taken in
            let old = with_reviews s (insert request_id review left) (remove request_id taken) in
            settle review "failed to persist pending review claim: " new old (persist new d.disk)
      ]

  unfoldable pub restore_claimed : PendingReview → Durable → Result (Unit {0}) String × Durable
  unfolding settle
  restore_claimed review d =
      let s = d.store in
      let request_id = review.request_id in
      if contains_key request_id s.reviews
      then (err "pending review request ID already exists", d)
      else elim (lookup request_id s.claimed_reviews) [
        | none ↦ (err "claimed review request not found", d)
        | some claimed ↦
            let left = remove request_id s.claimed_reviews in
            if not (review_beq claimed review)
            then (
              err "claimed review does not match restoration request",
              record d { store = with_reviews s s.reviews (insert request_id claimed left) },
            )
            else let added = insert request_id review s.reviews in
              let new = with_reviews s added left in
              let old = with_reviews s (remove request_id added) (insert request_id review left) in
              settle tt "failed to persist restored pending review: " new old (persist new d.disk)
      ]

  unfoldable pub consume_claimed_classified :
      ℕ → Durable → Result PendingReview ConsumeClaimedFailure × Durable
  unfolding settle_consume
  consume_claimed_classified request_id d =
      let s = d.store in
      elim (lookup request_id s.claimed_reviews) [
        | none ↦ (err (not_committed "claimed review request not found"), d)
        | some claimed ↦
            let left = remove request_id s.claimed_reviews in
            let new = with_reviews s s.reviews left in
            let old = with_reviews s s.reviews (insert request_id claimed left) in
            settle_consume claimed new old (persist new d.disk)
      ]
