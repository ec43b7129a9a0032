-- ===== src/PendingReview/Recovery/Operations.antt =====
-- Each operation of the store keeps memory and file together, whatever its save does.
use zyguor_agent_execution_g.Base.{
  ℕ, ◌≡◌, refl, ◌∙◌, ap, inl, inr, none, some, arith, Option-cases, Bool-cases,
}
use zyguor_agent_execution_g.Base.Assoc.{Assoc, lookup, insert, remove}
use zyguor_agent_execution_g.PendingReview.{PendingReview}
use zyguor_agent_execution_g.PendingReview.Equality.{review_beq, review_beq_iff}
use zyguor_agent_execution_g.PendingReview.State.{Serde, IsSerde}
use zyguor_agent_execution_g.PendingReview.Disk.{SaveIo}
use zyguor_agent_execution_g.PendingReview.Store.{
  Durable, with_reviews, persist, settle, insert_review, take, claim, restore_claimed,
  consume_claimed_classified,
}
use zyguor_agent_execution_g.PendingReview.Clean.{
  IsCanonical, IsClean, AreDisjoint, IsWellFormed, remove-IsClean, insert-IsClean, lookup-IsClean,
  insert-AreDisjoint, remove-AreDisjoint, remove-AreDisjoint_right, move-AreDisjoint,
  move_back-AreDisjoint, lookup-undo_insert, lookup-undo_remove,
}
use zyguor_agent_execution_g.PendingReview.Recovery.{
  IsDurable, unchanged, persist-Saves, settle-IsDurable, settle_consume-IsDurable,
}

module _ (json : Serde) (lawful : IsSerde json) (io : SaveIo) where
  -- Inserting a reviewable request whose id is not claimed.
  pub insert-IsDurable :
      (review : PendingReview) (d : Durable)
      → IsCanonical review
      → lookup review.request_id d.store.claimed_reviews ≡ none
      → IsDurable json d
      → IsDurable json (insert_review json io review d).1
  unfolding insert_review
  insert-IsDurable review d fits free v =
      elim (Option-cases (lookup review.request_id d.store.reviews)) [
        | inr (other, p) ↦ rw p v
        | inl p ↦ rw p (
            settle-IsDurable json lawful io tt _ d added d.store.claimed_reviews
              (remove review.request_id added) d.store.claimed_reviews _ v
              (record { reviews = clean; claimed = w.claimed; disjoint = apart })
              (record {
                reviews = remove-IsClean review.request_id added clean;
                claimed = w.claimed;
                disjoint =
                    remove-AreDisjoint review.request_id review added d.store.claimed_reviews apart;
              })
              (record {
                reviews = lookup-undo_insert review.request_id review d.store.reviews p;
                claimed = λ k. refl;
              })
              (persist-Saves json lawful io d added d.store.claimed_reviews v))
      ]
    where
      w : IsWellFormed d.store.maps
      w = v.well_formed

      added : Assoc PendingReview
      added = insert review.request_id review d.store.reviews

      clean : IsClean added
      clean = insert-IsClean review.request_id review d.store.reviews refl fits w.reviews

      apart : AreDisjoint added d.store.claimed_reviews
      apart =
          insert-AreDisjoint review.request_id review d.store.reviews d.store.claimed_reviews
            w.disjoint free

  module _ (d : Durable) (v : IsDurable json d) where
    abbrev waiting : Assoc PendingReview
    waiting = d.store.reviews

    abbrev taken : Assoc PendingReview
    taken = d.store.claimed_reviews

    w : IsWellFormed d.store.maps
    w = v.well_formed

    -- A review moves from the first map to the second.
    moved :
        (k : ℕ) (review : PendingReview)
        → lookup k waiting ≡ some review
        → IsWellFormed
            (record { reviews = remove k waiting; claimed_reviews = insert k review taken })
    moved k review p =
        let (own, fits) = lookup-IsClean k waiting review w.reviews p in
        record {
          reviews = remove-IsClean k waiting w.reviews;
          claimed = insert-IsClean k review taken own fits w.claimed;
          disjoint = move-AreDisjoint k review waiting taken w.disjoint;
        }

    -- And back.
    moved_back :
        (k : ℕ) (review : PendingReview)
        → lookup k taken ≡ some review
        → IsWellFormed
            (record { reviews = insert k review waiting; claimed_reviews = remove k taken })
    moved_back k review p =
        let (own, fits) = lookup-IsClean k taken review w.claimed p in
        record {
          reviews = insert-IsClean k review waiting own fits w.reviews;
          claimed = remove-IsClean k taken w.claimed;
          disjoint = move_back-AreDisjoint k review waiting taken w.disjoint;
        }

    -- Removing a review and putting it back, on either side.
    replaced :
        (k : ℕ) (review : PendingReview)
        → lookup k waiting ≡ some review
        → IsWellFormed
            (record { reviews = insert k review (remove k waiting); claimed_reviews = taken })
    replaced k review p =
        let (own, fits) = lookup-IsClean k waiting review w.reviews p in
        record {
          reviews =
              insert-IsClean k review (remove k waiting) own fits
                (remove-IsClean k waiting w.reviews);
          claimed = w.claimed;
          disjoint = λ j. ground (arith, w.disjoint j, lookup-undo_remove k review waiting p j);
        }

    replaced_claimed :
        (k : ℕ) (review : PendingReview)
        → lookup k taken ≡ some review
        → IsWellFormed
            (record { reviews = waiting; claimed_reviews = insert k review (remove k taken) })
    replaced_claimed k review p =
        let (own, fits) = lookup-IsClean k taken review w.claimed p in
        record {
          reviews = w.reviews;
          claimed =
              insert-IsClean k review (remove k taken) own fits (remove-IsClean k taken w.claimed);
          disjoint = λ j. ground (arith, w.disjoint j, lookup-undo_remove k review taken p j);
        }

    pub claim-IsDurable : (k : ℕ) → IsDurable json (claim json io k d).1
    unfolding claim
    claim-IsDurable k = elim (Option-cases (lookup k taken)) [
      | inr (other, q) ↦ rw q v
      | inl q ↦ elim (Option-cases (lookup k waiting)) [
        | inl p ↦ rw (q, p) v
        | inr (review, p) ↦
            rw (q, p)
              (settle-IsDurable json lawful io review _ d (remove k waiting) (insert k review taken)
                (insert k review (remove k waiting)) (remove k (insert k review taken)) _ v
                (moved k review p)
                (record {
                  reviews = (replaced k review p).reviews;
                  claimed = remove-IsClean k _ (moved k review p).claimed;
                  disjoint = λ j. ground (
                    arith,
                    w.disjoint j,
                    lookup-undo_remove k review waiting p j,
                    lookup-undo_insert k review taken q j,
                  );
                })
                (record {
                  reviews = lookup-undo_remove k review waiting p;
                  claimed = lookup-undo_insert k review taken q;
                })
                (persist-Saves json lawful io d (remove k waiting) (insert k review taken) v))
      ]
    ]

    pub take-IsDurable : (k : ℕ) → IsDurable json (take json io k d).1
    unfolding take
    take-IsDurable k = elim (Option-cases (lookup k waiting)) [
      | inl p ↦ rw (p, take) v
      | inr (review, p) ↦
          rw (p, take)
            (settle-IsDurable json lawful io (some review) _ d (remove k waiting) taken
              (insert k review (remove k waiting)) taken _ v
              (record {
                reviews = remove-IsClean k waiting w.reviews;
                claimed = w.claimed;
                disjoint = remove-AreDisjoint k review waiting taken w.disjoint;
              })
              (replaced k review p)
              (record { reviews = lookup-undo_remove k review waiting p; claimed = λ j. refl })
              (persist-Saves json lawful io d (remove k waiting) taken v))
    ]

    pub consume-IsDurable : (k : ℕ) → IsDurable json (consume_claimed_classified json io k d).1
    unfolding consume_claimed_classified
    consume-IsDurable k = elim (Option-cases (lookup k taken)) [
      | inl p ↦ rw (p, consume_claimed_classified) v
      | inr (review, p) ↦
          rw (p, consume_claimed_classified)
            (settle_consume-IsDurable json lawful io review d waiting (remove k taken) waiting
              (insert k review (remove k taken)) _ v
              (record {
                reviews = w.reviews;
                claimed = remove-IsClean k taken w.claimed;
                disjoint = remove-AreDisjoint_right k review waiting taken w.disjoint;
              })
              (replaced_claimed k review p)
              (record { reviews = λ j. refl; claimed = lookup-undo_remove k review taken p })
              (persist-Saves json lawful io d waiting (remove k taken) v))
    ]

    pub restore-IsDurable :
        (review : PendingReview) → IsDurable json (restore_claimed json io review d).1
    unfolding restore_claimed
    restore-IsDurable review = elim (Option-cases (lookup review.request_id waiting)) [
      | inr (other, q) ↦ rw q v
      | inl q ↦ elim (Option-cases (lookup review.request_id taken)) [
        | inl p ↦ rw (q, p) v
        | inr (claimed, p) ↦ elim (Bool-cases (review_beq claimed review)) [
          | inr differs ↦ rw (q, p, differs) (kept review.request_id claimed p)
          | inl equal ↦
              rw (q, p, equal)
                (given_back q (p ∙ ap some ((review_beq_iff claimed review).0 equal)))
        ]
      ]
    ]
      where
        kept :
            (k : ℕ) (claimed : PendingReview)
            → lookup k taken ≡ some claimed
            → IsDurable json (record d {
              store = with_reviews d.store waiting (insert k claimed (remove k taken));
            })
        kept k claimed p =
            unchanged json lawful d waiting (insert k claimed (remove k taken)) d.disk v
              (replaced_claimed k claimed p)
              (record { reviews = λ j. refl; claimed = lookup-undo_remove k claimed taken p }) refl

        k : ℕ
        k = review.request_id

        given_back :
            lookup k waiting ≡ none
            → lookup k taken ≡ some review
            → IsDurable json
                (settle {0} {A = Unit {0}} tt "failed to persist restored pending review: "
                  (with_reviews d.store (insert k review waiting) (remove k taken))
                  (with_reviews d.store
                    (remove k (insert k review waiting))
                    (insert k review (remove k taken)))
                  (persist json io
                    (with_reviews d.store (insert k review waiting) (remove k taken))
                    d.disk)).1
        given_back q p =
            settle-IsDurable json lawful io tt _ d (insert k review waiting) (remove k taken)
              (remove k (insert k review waiting)) (insert k review (remove k taken)) _ v
              (moved_back k review p)
              (record {
                reviews = remove-IsClean k _ (moved_back k review p).reviews;
                claimed = (replaced_claimed k review p).claimed;
                disjoint = λ j. ground (
                  arith,
                  w.disjoint j,
                  lookup-undo_insert k review waiting q j,
                  lookup-undo_remove k review taken p j,
                );
              })
              (record {
                reviews = lookup-undo_insert k review waiting q;
                claimed = lookup-undo_remove k review taken p;
              })
              (persist-Saves json lawful io d (insert k review waiting) (remove k taken) v)
