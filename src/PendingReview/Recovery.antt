-- ===== src/PendingReview/Recovery.antt =====
-- What it means that a restart loads what the gateway holds in memory, and that each way to end an
-- operation keeps it so.
pub mod Operations
pub mod History
use zyguor_agent_execution_g.Base.{
  ℕ, String, ◌≡◌, refl, sym, ◌∙◌, ◌⊎◌, inl, inr, Bool, true, false, not, Option, none, some, Result,
  ok, err, arith, is_some, Result-cases, Option-cases, Bool-cases, if◌then◌else◌,
}
use zyguor_agent_execution_g.Base.Assoc.{Assoc, lookup, insert, remove, contains_key}
use zyguor_agent_execution_g.Base.Paths.{FilePath}
use zyguor_agent_execution_g.PendingReview.{PendingReview}
use zyguor_agent_execution_g.PendingReview.Equality.{review_beq, review_beq_iff}
use zyguor_agent_execution_g.PendingReview.State.{
  Serde, IsSerde, Reviews, empty, serialize_state, from_serialized_state,
}
use zyguor_agent_execution_g.PendingReview.Disk.{
  before_commit, after_commit, Disk, SaveIo, Saved, save_to_anchored_path_classified,
}
use zyguor_agent_execution_g.PendingReview.Store.{
  PendingReviewStore, Durable, with_reviews, persist, settle, settle_consume, insert_review, take,
  claim, restore_claimed, consume_claimed_classified,
}
use zyguor_agent_execution_g.PendingReview.Clean.{
  IsCanonical, IsClean, AreDisjoint, IsWellFormed, SameView, remove-IsClean, insert-IsClean,
  lookup-IsClean, insert-AreDisjoint, remove-AreDisjoint, remove-AreDisjoint_right,
  move-AreDisjoint, move_back-AreDisjoint, lookup-undo_insert, lookup-undo_remove,
}
use zyguor_agent_execution_g.PendingReview.Roundtrip.{serialize-from_serialized}
use zyguor_agent_execution_g.PendingReview.Commit.{Saves, save-Saves}

-- What the next start loads: no file is an empty store.
abbrev pub recover : Serde → Option String → Result Reviews String
recover json none = ok empty
recover json (some text) = from_serialized_state json text

pub record IsDurable (json : Serde) (d : Durable) : Type 0 where
  pub path : FilePath
  pub at_path : d.store.persistence_path ≡ some path
  pub parent : ℕ
  pub in_parent : d.store.persistence_parent ≡ some parent
  pub well_formed : IsWellFormed d.store.maps
  pub loaded : Reviews
  pub loads : recover json d.disk.state_file ≡ ok loaded
  pub same : SameView loaded d.store.maps

SameView-trans : {s t u : Reviews} → SameView s t → SameView t u → SameView s u
SameView-trans p q = record {
  reviews = λ k. p.reviews k ∙ q.reviews k;
  claimed = λ k. p.claimed k ∙ q.claimed k;
}

SameView-sym : {s t : Reviews} → SameView s t → SameView t s
SameView-sym p = record { reviews = λ k. sym (p.reviews k); claimed = λ k. sym (p.claimed k) }

module _ (json : Serde) (lawful : IsSerde json) where
  -- The two ways in which an operation leaves the store and the file together.
  pub committed :
      (old : Durable) (reviews claimed_reviews : Assoc PendingReview) (disk : Disk) (text : String)
      → IsDurable json old
      → let new = with_reviews old.store reviews claimed_reviews in
        IsWellFormed new.maps
        → serialize_state json new.maps ≡ ok text
        → disk.state_file ≡ some text
        → IsDurable json (record { store = new; disk = disk })
  committed old reviews claimed_reviews disk text v w e f =
      let (loaded, loads, same) =
        serialize-from_serialized json lawful
          (record { reviews = reviews; claimed_reviews = claimed_reviews }) text w e in
      record {
        path = v.path;
        at_path = v.at_path;
        parent = v.parent;
        in_parent = v.in_parent;
        well_formed = w;
        loaded = loaded;
        loads = rw f loads;
        same = same;
      }

  pub unchanged :
      (old : Durable) (reviews claimed_reviews : Assoc PendingReview) (disk : Disk)
      → IsDurable json old
      → let back = with_reviews old.store reviews claimed_reviews in
        IsWellFormed back.maps
        → SameView back.maps old.store.maps
        → disk.state_file ≡ old.disk.state_file
        → IsDurable json (record { store = back; disk = disk })
  unchanged old reviews claimed_reviews disk v w s f = record {
    path = v.path;
    at_path = v.at_path;
    parent = v.parent;
    in_parent = v.in_parent;
    well_formed = w;
    loaded = v.loaded;
    loads = rw f v.loads;
    same = SameView-trans v.same (SameView-sym s);
  }

  module _ (io : SaveIo) where
    pub persist-Saves :
        (old : Durable) (reviews claimed_reviews : Assoc PendingReview)
        → IsDurable json old
        → let new = with_reviews old.store reviews claimed_reviews in
          Saves json new.maps old.disk (persist json io new old.disk)
    unfolding persist
    persist-Saves old reviews claimed_reviews v =
        rw (v.at_path, v.in_parent)
          (save-Saves json io (record { reviews = reviews; claimed_reviews = claimed_reviews })
            v.path old.disk)

    pub settle-IsDurable {ℓ} :
        {A : Type ℓ} (a : A) (prefix : String) (old : Durable) (r c r' c' : Assoc PendingReview)
        (saved : Saved)
        → IsDurable json old
        → IsWellFormed (record { reviews = r; claimed_reviews = c })
        → IsWellFormed (record { reviews = r'; claimed_reviews = c' })
        → SameView (record { reviews = r'; claimed_reviews = c' }) old.store.maps
        → Saves json (record { reviews = r; claimed_reviews = c }) old.disk saved
        → IsDurable json
            (settle a prefix (with_reviews old.store r c) (with_reviews old.store r' c') saved).1
    unfolding settle
    settle-IsDurable a prefix old r c r' c' (ok u, disk) v w w' s (text, e, f) =
        committed old r c disk text v w e f
    settle-IsDurable a prefix old r c r' c' (err (before_commit m), disk) v w w' s f =
        unchanged old r' c' disk v w' s f
    settle-IsDurable a prefix old r c r' c' (err (after_commit m), disk) v w w' s (text, e, f) =
        committed old r c disk text v w e f

    pub settle_consume-IsDurable :
        (review : PendingReview) (old : Durable) (r c r' c' : Assoc PendingReview) (saved : Saved)
        → IsDurable json old
        → IsWellFormed (record { reviews = r; claimed_reviews = c })
        → IsWellFormed (record { reviews = r'; claimed_reviews = c' })
        → SameView (record { reviews = r'; claimed_reviews = c' }) old.store.maps
        → Saves json (record { reviews = r; claimed_reviews = c }) old.disk saved
        → IsDurable json
            (settle_consume review
              (with_reviews old.store r c)
              (with_reviews old.store r' c')
              saved).1
    unfolding settle_consume
    settle_consume-IsDurable review old r c r' c' (ok u, disk) v w w' s (text, e, f) =
        committed old r c disk text v w e f
    settle_consume-IsDurable review old r c r' c' (err (before_commit m), disk) v w w' s f =
        unchanged old r' c' disk v w' s f
    settle_consume-IsDurable review old r c r' c' (err (after_commit m), disk) v w w' s
          (text, e, f) =
        committed old r c disk text v w e f
