-- ===== src/PendingReview/Roundtrip.antt =====
-- Writing the state file and reading it back.
use zyguor_agent_execution_g.Base.{
  ℕ, String, ◌≡◌, refl, sym, ◌∙◌, ap, ◌⊎◌, inr, Option, none, some, List, [], ◌∷◌, ◌++◌, ok, arith,
  Option-cases, is_some, if◌then◌else◌,
}
use mathlib.Core.List.{append-nil}
use zyguor_agent_execution_g.Base.Assoc.{Assoc, lookup, lookup-nil, lookup-insert}
use zyguor_agent_execution_g.Execution.{ExecutionRequest, write_file, run_cargo_test, http_request}
use zyguor_agent_execution_g.PendingReview.{WriteTargetState, PendingReview}
use zyguor_agent_execution_g.PendingReview.Persisted.{
  PersistedReviewStatus, PersistedReviewOperation, pending, claimed, PersistedPendingReview,
  version, persisted_operation, persist_review, restore_operation, restore_review,
}
use zyguor_agent_execution_g.PendingReview.State.{
  Serde, IsSerde, Reviews, empty, persist_all, persisted_reviews, add_review, load_reviews,
  serialize_state, from_serialized_state,
}
use zyguor_agent_execution_g.PendingReview.Clean.{
  Fits, IsCanonical, IsClean, IsWellFormed, SameView,
}

operation-Fits :
    (id : ℕ) (purpose : String) (request : ExecutionRequest) (fingerprint : Option String)
    (target : Option WriteTargetState)
    → Fits request fingerprint target
    → (operation : PersistedReviewOperation) × (persisted_operation request fingerprint target
        ≡ ok operation)
      × (restore_operation id purpose operation ≡ record {
        request_id = id;
        request = request;
        purpose = purpose;
        workspace_fingerprint = fingerprint;
        write_target_state = target;
      })
unfolding persisted_operation restore_operation
operation-Fits id purpose (write_file a) none (some t) f =
    (PersistedReviewOperation.write_file a.path a.content t, refl, refl)
operation-Fits id purpose run_cargo_test (some p) none f =
    (PersistedReviewOperation.run_cargo_test p, refl, refl)
operation-Fits id purpose (http_request a) none none f =
    (PersistedReviewOperation.http_post a.url a.body, ground arith, ground arith)
operation-Fits id purpose _ _ _ f = absurd f

-- A canonical review is persisted, and under either status it is restored as it was.
pub persist-restore :
    (review : PendingReview)
    → IsCanonical review
    → (persisted : PersistedPendingReview) × (persist_review review ≡ ok persisted)
      × ((status : PersistedReviewStatus)
          → restore_review (record persisted { status = status }) ≡ ok review)
unfolding persist_review restore_review
persist-restore review f =
    let (operation, p, r) =
      operation-Fits review.request_id review.purpose review.request review.workspace_fingerprint
        review.write_target_state f in
    (
      record {
        request_id = review.request_id;
        purpose = review.purpose;
        status = pending;
        operation = operation;
      },
      rw p,
      λ status. rw r,
    )

restored :
    (id : ℕ) (purpose : String) (operation : PersistedReviewOperation)
    → let review = restore_operation id purpose operation in
      IsCanonical review
      × (persist_review review
          ≡ ok (record {
            request_id = id;
            purpose = purpose;
            status = pending;
            operation = operation;
          }))
unfolding restore_operation persist_review
restored id purpose (PersistedReviewOperation.write_file path content target) = (tt, refl)
restored id purpose (PersistedReviewOperation.run_cargo_test fingerprint) = (tt, refl)
restored id purpose (PersistedReviewOperation.http_post url body) = (refl, refl)

-- A persisted review that is restored is reviewable, with the evidence of its kind, and writing it
-- again loses nothing but its status.
pub restore-persist :
    (persisted : PersistedPendingReview) (review : PendingReview)
    → restore_review persisted ≡ ok review
    → IsCanonical review × (persist_review review ≡ ok (record persisted { status = pending }))
unfolding restore_review
restore-persist persisted review h =
    let e : restore_operation persisted.request_id persisted.purpose persisted.operation ≡ review =
      ground arith in
    rw (← e) (restored persisted.request_id persisted.purpose persisted.operation)

-- The store after the loop over one map.
abbrev add_all : PersistedReviewStatus → Assoc PendingReview → Reviews → Reviews
add_all status [] acc = acc
add_all status ((k, review) ∷ m) acc = add_all status m (add_review status review acc)

-- No id of the map is in the store.
abbrev AreNew : Assoc PendingReview → Reviews → Type 0
AreNew m acc =
    (k : ℕ)
    → (lookup k m ≡ none) ⊎ ((lookup k acc.reviews ≡ none) × (lookup k acc.claimed_reviews ≡ none))

AreNew-head :
    (k : ℕ) (review : PendingReview) (m : Assoc PendingReview) (acc : Reviews)
    → AreNew ((k, review) ∷ m) acc
    → (lookup k acc.reviews ≡ none) × (lookup k acc.claimed_reviews ≡ none)
unfolding lookup
AreNew-head k review m acc h = ground (arith, h k)

AreNew-step :
    (status : PersistedReviewStatus) (k : ℕ) (review : PendingReview) (m : Assoc PendingReview)
    (acc : Reviews)
    → review.request_id ≡ k
    → lookup k m ≡ none
    → AreNew ((k, review) ∷ m) acc
    → AreNew m (add_review status review acc)
unfolding lookup add_review
AreNew-step pending k review m acc e absent h j =
    ground (arith, h j, lookup-insert review.request_id j review acc.reviews)
AreNew-step claimed k review m acc e absent h j =
    ground (arith, h j, lookup-insert review.request_id j review acc.claimed_reviews)

load_all :
    (status : PersistedReviewStatus) (m : Assoc PendingReview) (acc : Reviews)
    → IsClean m
    → AreNew m acc
    → (ps : List PersistedPendingReview) × (persist_all status m ≡ ok ps)
      × ((rest : List PersistedPendingReview)
          → load_reviews acc (ps ++ rest) ≡ load_reviews (add_all status m acc) rest)
unfolding persist_all load_reviews
load_all status [] acc c new = ([], refl, λ rest. refl)
load_all status ((k, review) ∷ m) acc c new =
    let (persisted, p, back) = persist-restore review c.1 in
    let (free, free_claimed) = AreNew-head k review m acc new in
    let free' : lookup review.request_id acc.reviews ≡ none = cc (c.0, free) in
    let free_claimed' : lookup review.request_id acc.claimed_reviews ≡ none =
      cc (c.0, free_claimed) in
    let (ps, q, load) =
      load_all status m (add_review status review acc) c.3
        (AreNew-step status k review m acc c.0 c.2 new) in
    (
      record persisted { status = status } ∷ ps,
      rw (p, q),
      λ rest. rw (back status, free', free_claimed') (load rest),
    )

lookup-add_all :
    (m : Assoc PendingReview) (acc : Reviews)
    → IsClean m
    → (j : ℕ)
    → (lookup j (add_all pending m acc).reviews
        ≡ (if is_some (lookup j m) then lookup j m else lookup j acc.reviews))
      × (lookup j (add_all claimed m acc).claimed_reviews
          ≡ (if is_some (lookup j m) then lookup j m else lookup j acc.claimed_reviews))
      × ((add_all pending m acc).claimed_reviews ≡ acc.claimed_reviews)
      × ((add_all claimed m acc).reviews ≡ acc.reviews)
unfolding lookup add_review
lookup-add_all [] acc c j = (refl, refl, refl, refl)
lookup-add_all ((k, review) ∷ m) acc c j =
    let p = lookup-add_all m (add_review pending review acc) c.3 j in
    let q = lookup-add_all m (add_review claimed review acc) c.3 j in
    (
      ground (arith, p.0, c.0, c.2, lookup-insert review.request_id j review acc.reviews),
      ground (arith, q.1, c.0, c.2, lookup-insert review.request_id j review acc.claimed_reviews),
      p.2,
      q.3,
    )

module _ (s : Reviews) (w : IsWellFormed s) where
  abbrev waiting_only : Reviews
  waiting_only = add_all pending s.reviews empty

  abbrev reloaded : Reviews
  reloaded = add_all claimed s.claimed_reviews waiting_only

  new_waiting : AreNew s.reviews empty
  new_waiting k = inr (lookup-nil k, lookup-nil k)

  new_claimed : AreNew s.claimed_reviews waiting_only
  new_claimed k =
      let p = lookup-add_all s.reviews empty w.reviews k in
      ground (arith, w.disjoint k, p.0, p.2, lookup-nil {V = PendingReview} k)

  reloaded-SameView : SameView reloaded s
  reloaded-SameView = record {
    reviews = λ k.
        let p = lookup-add_all s.reviews empty w.reviews k in
        let q = lookup-add_all s.claimed_reviews waiting_only w.claimed k in
        ground
          (arith, p.0, q.3, lookup-nil {V = PendingReview} k, Option-cases (lookup k s.reviews));
    claimed = λ k.
        let p = lookup-add_all s.reviews empty w.reviews k in
        let q = lookup-add_all s.claimed_reviews waiting_only w.claimed k in
        ground (
          arith,
          q.1,
          p.2,
          lookup-nil {V = PendingReview} k,
          Option-cases (lookup k s.claimed_reviews),
        );
  }

  persisted-reload :
      (ps : List PersistedPendingReview) × (persisted_reviews s ≡ ok ps)
      × (load_reviews empty ps ≡ ok reloaded)
  unfolding persisted_reviews
  persisted-reload =
      let (ps, p, load) = load_all pending s.reviews empty w.reviews new_waiting in
      let (qs, q, load') = load_all claimed s.claimed_reviews waiting_only w.claimed new_claimed in
      (
        ps ++ qs,
        rw (p, q),
        load qs ∙ ap (load_reviews waiting_only) (sym (append-nil qs)) ∙ load' [] ∙ load_nil,
      )
    where
      load_nil : load_reviews reloaded [] ≡ ok reloaded
      load_nil = unfold load_reviews in refl

module _ (json : Serde) (lawful : IsSerde json) where
  -- The state file of a well-formed store loads, and the loaded store answers every lookup as the
  -- store that was written: no review is lost, changed, or moved between waiting and claimed.
  pub serialize-from_serialized :
      (s : Reviews) (text : String)
      → IsWellFormed s
      → serialize_state json s ≡ ok text
      → (loaded : Reviews) × (from_serialized_state json text ≡ ok loaded) × SameView loaded s
  unfolding serialize_state from_serialized_state
  serialize-from_serialized s text w h =
      let (ps, p, load) = persisted-reload s w in
      let printed : json.to_string_pretty (record { version = version; reviews = ps }) ≡ ok text =
        ground (arith, p) in
      (reloaded s w, rw (lawful.reads_back _ text printed) load, reloaded-SameView s w)
