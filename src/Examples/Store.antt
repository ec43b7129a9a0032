-- ===== src/Examples/Store.antt =====
-- The theorems on the store of pending reviews, at one test run that waits.
use zyguor_agent_execution_g.Base.{◌≡◌, refl, inr, none, some, ok}
use zyguor_agent_execution_g.Base.Assoc.{lookup, insert, lookup-nil}
use zyguor_agent_execution_g.PendingReview.Persisted.{
  PersistedReviewStatus, pending, claimed, PersistedPendingReview, PersistedPendingReviewState,
  version, persist_review, restore_review,
}
use zyguor_agent_execution_g.PendingReview.State.{
  persisted_reviews, load_reviews, Reviews, empty, serialize_state, from_serialized_state,
}
use zyguor_agent_execution_g.PendingReview.Disk.{
  Disk, SaveIo, no_faults, save_to_anchored_path_classified,
}
use zyguor_agent_execution_g.PendingReview.Store.{Durable, insert_review, claim}
use zyguor_agent_execution_g.PendingReview.Clean.{IsCanonical, IsWellFormed, SameView}
use zyguor_agent_execution_g.PendingReview.Roundtrip.{
  persist-restore, restore-persist, serialize-from_serialized,
}
use zyguor_agent_execution_g.PendingReview.Loaded.{empty-IsWellFormed, from_serialized-IsWellFormed}
use zyguor_agent_execution_g.PendingReview.Commit.{Saves, save-Saves}
use zyguor_agent_execution_g.PendingReview.Recovery.{IsDurable}
use zyguor_agent_execution_g.PendingReview.Recovery.History.{
  Reach, here, next, inserts, claims, Reach-IsDurable,
}
use zyguor_agent_execution_g.Examples.{
  test_run, persisted_run, json, json-IsSerde, waiting_store, state_path,
}

waiting_store-IsWellFormed : IsWellFormed waiting_store
unfolding lookup
waiting_store-IsWellFormed = record {
  reviews = (refl, tt, refl, tt);
  claimed = tt;
  disjoint = λ k. inr refl;
}

persist-restore_example :
    (persisted : PersistedPendingReview) × (persist_review test_run ≡ ok persisted)
    × ((status : PersistedReviewStatus)
        → restore_review (record persisted { status = status }) ≡ ok test_run)
persist-restore_example = persist-restore test_run tt

restored_run : restore_review (persisted_run claimed) ≡ ok test_run
unfolding restore_review
restored_run = refl

restore-persist_example :
    IsCanonical test_run
    × (persist_review test_run ≡ ok (record (persisted_run claimed) { status = pending }))
restore-persist_example = restore-persist (persisted_run claimed) test_run restored_run

printed_store : serialize_state json waiting_store ≡ ok "waiting"
unfolding serialize_state persist_review persisted_reviews
printed_store = refl

serialize-from_serialized_example :
    (loaded : Reviews) × (from_serialized_state json "waiting" ≡ ok loaded)
    × SameView loaded waiting_store
serialize-from_serialized_example =
    serialize-from_serialized json json-IsSerde waiting_store "waiting" waiting_store-IsWellFormed
      printed_store

read_store : from_serialized_state json "waiting" ≡ ok waiting_store
unfolding from_serialized_state restore_review load_reviews lookup insert
read_store = refl

from_serialized-IsWellFormed_example :
    IsWellFormed waiting_store
    × ((state : PersistedPendingReviewState) × (json.from_str "waiting" ≡ ok state)
        × (state.version ≡ version))
from_serialized-IsWellFormed_example =
    from_serialized-IsWellFormed json "waiting" waiting_store read_store

abbrev old_disk : Disk
old_disk = record { state_file = none; temporary_file = none }

-- A save whose directory cannot be synced after the rename.
abbrev half_saved : SaveIo
half_saved = record no_faults { parent_sync_error = some "input/output error" }

save-Saves_example :
    Saves json waiting_store old_disk
      (save_to_anchored_path_classified json half_saved waiting_store state_path old_disk)
save-Saves_example = save-Saves json half_saved waiting_store state_path old_disk

abbrev empty_store : Durable
empty_store = record {
  store = record { maps = empty; persistence_path = some state_path; persistence_parent = some 3 };
  disk = old_disk;
}

empty_store-IsDurable : IsDurable json empty_store
empty_store-IsDurable = record {
  path = state_path;
  at_path = refl;
  parent = 3;
  in_parent = refl;
  well_formed = empty-IsWellFormed;
  loaded = empty;
  loads = refl;
  same = record { reviews = λ k. refl; claimed = λ k. refl };
}

abbrev inserted : Durable
inserted = (insert_review json no_faults test_run empty_store).1

-- The test run is inserted, and a claim of it fails to sync.
abbrev history : Reach json empty_store (claim json half_saved 7 inserted).1
history = next (next here (inserts no_faults test_run tt (lookup-nil 7))) (claims half_saved 7)

Reach-IsDurable_example : IsDurable json (claim json half_saved 7 inserted).1
Reach-IsDurable_example = Reach-IsDurable json json-IsSerde empty_store-IsDurable history
