-- ===== src/PendingReview/Recovery/History.antt =====
-- Any history of the store, with restarts and failed saves anywhere in it.
use zyguor_agent_execution_g.Base.{ℕ, String, ◌≡◌, refl, Option, none, some, ok, arith}
use zyguor_agent_execution_g.Base.Assoc.{lookup}
use zyguor_agent_execution_g.PendingReview.{PendingReview}
use zyguor_agent_execution_g.PendingReview.State.{Serde, IsSerde, Reviews, empty}
use zyguor_agent_execution_g.PendingReview.Disk.{SaveIo}
use zyguor_agent_execution_g.PendingReview.Store.{
  Durable, with_reviews, insert_review, take, claim, restore_claimed, consume_claimed_classified,
}
use zyguor_agent_execution_g.PendingReview.Clean.{IsCanonical, IsWellFormed}
use zyguor_agent_execution_g.PendingReview.Loaded.{empty-IsWellFormed, from_serialized-IsWellFormed}
use zyguor_agent_execution_g.PendingReview.Recovery.{IsDurable, recover}
use zyguor_agent_execution_g.PendingReview.Recovery.Operations.{
  insert-IsDurable, claim-IsDurable, take-IsDurable, consume-IsDurable, restore-IsDurable,
}

recover-IsWellFormed :
    (json : Serde) (file : Option String) (s : Reviews) → recover json file ≡ ok s → IsWellFormed s
recover-IsWellFormed json none s h = let e : empty ≡ s = ground arith in rw (← e) empty-IsWellFormed
recover-IsWellFormed json (some text) s h = (from_serialized-IsWellFormed json text s h).0

-- One operation, with any answers of the operating system to its save, or a restart.
pub data Step (json : Serde) (d : Durable) : Durable → Type 0 where
  inserts :
      (io : SaveIo) (review : PendingReview)
      → IsCanonical review
      → lookup review.request_id d.store.claimed_reviews ≡ none
      → Step json d (insert_review json io review d).1
  claims : (io : SaveIo) (k : ℕ) → Step json d (claim json io k d).1
  takes : (io : SaveIo) (k : ℕ) → Step json d (take json io k d).1
  restores :
      (io : SaveIo) (review : PendingReview) → Step json d (restore_claimed json io review d).1
  consumes : (io : SaveIo) (k : ℕ) → Step json d (consume_claimed_classified json io k d).1
  restarts :
      (loaded : Reviews)
      → recover json d.disk.state_file ≡ ok loaded
      → Step json d
          (record d { store = with_reviews d.store loaded.reviews loaded.claimed_reviews })

pub data Reach (json : Serde) (d : Durable) : Durable → Type 0 where
  here : Reach json d d
  next : {e f : Durable} → Reach json d e → Step json e f → Reach json d f

module _ (json : Serde) (lawful : IsSerde json) where
  Step-IsDurable : {d e : Durable} → IsDurable json d → Step json d e → IsDurable json e
  Step-IsDurable {d} v (inserts io review fits free) =
      insert-IsDurable json lawful io review d fits free v
  Step-IsDurable {d} v (claims io k) = claim-IsDurable json lawful io d v k
  Step-IsDurable {d} v (takes io k) = take-IsDurable json lawful io d v k
  Step-IsDurable {d} v (restores io review) = restore-IsDurable json lawful io d v review
  Step-IsDurable {d} v (consumes io k) = consume-IsDurable json lawful io d v k
  Step-IsDurable {d} v (restarts loaded e) = record {
    path = v.path;
    at_path = v.at_path;
    parent = v.parent;
    in_parent = v.in_parent;
    well_formed = recover-IsWellFormed json d.disk.state_file loaded e;
    loaded = loaded;
    loads = e;
    same = record { reviews = λ k. refl; claimed = λ k. refl };
  }

  -- From a store that agrees with its file, every history of insertions of new reviewable
  -- requests, claims, removals, restorations, consumptions and restarts, each with any failure of
  -- the operating system while it saves, ends in a well-formed store that agrees with its file: a
  -- restart loads it, and answers every lookup as the memory does.
  pub Reach-IsDurable : {d e : Durable} → IsDurable json d → Reach json d e → IsDurable json e
  Reach-IsDurable v here = v
  Reach-IsDurable v (next r s) = Step-IsDurable (Reach-IsDurable v r) s
