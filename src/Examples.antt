-- ===== src/Examples.antt =====
-- Concrete data: a JSON library, a URL library and a world, on which the theorems are applied.
pub mod Store
pub mod Config
pub mod Http
pub mod Gateway
pub mod Workspace
pub mod CargoTest
pub mod Files
pub mod Command
use zyguor_agent_execution_g.Base.{
  ℕ, String, ◌≡◌, refl, ◌⊎◌, inl, inr, Bool, true, false, Option, none, some, List, [], ◌∷◌, Result,
  ok, err, nat_beq, ◌==◌, string_eq, ◌&&◌, if◌then◌else◌, arith,
}
use text.Mathlib.TextEquality.{eq_iff}
use zyguor_agent_execution_g.Base.Paths.{root_dir, normal, FilePath}
use zyguor_agent_execution_g.Execution.{ExecutionRequest}
use zyguor_agent_execution_g.Http.Url.{Url, domain, UrlLibrary}
use zyguor_agent_execution_g.PendingReview.{PendingReview}
use zyguor_agent_execution_g.PendingReview.Persisted.{
  PersistedReviewStatus, pending, claimed, PersistedReviewOperation, PersistedPendingReview,
  PersistedPendingReviewState, version,
}
use zyguor_agent_execution_g.PendingReview.State.{Serde, IsSerde, Reviews, empty}
use zyguor_agent_execution_g.PendingReview.Disk.{Disk, SaveIo, no_faults}

status_cases : (s : PersistedReviewStatus) → (s ≡ pending) ⊎ (s ≡ claimed)
status_cases pending = inl refl
status_cases claimed = inr refl

-- A test run that waits under the id 7, at the workspace "f0".
abbrev pub test_run : PendingReview
test_run = record {
  request_id = 7;
  request = ExecutionRequest.run_cargo_test;
  purpose = "check";
  workspace_fingerprint = some "f0";
  write_target_state = none;
}

abbrev pub persisted_run : PersistedReviewStatus → PersistedPendingReview
persisted_run status = record {
  request_id = 7;
  purpose = "check";
  status = status;
  operation = PersistedReviewOperation.run_cargo_test "f0";
}

abbrev pub state_of : List PersistedPendingReview → PersistedPendingReviewState
state_of reviews = record { version = version; reviews = reviews }

-- A printer for the states that hold the test run or nothing, and its reader.
abbrev word : PersistedReviewStatus → String
word pending = "waiting"
word claimed = "claimed"

abbrev print_run : PersistedPendingReview → PersistedReviewOperation → Result String String
print_run r (PersistedReviewOperation.run_cargo_test fingerprint) =
    if nat_beq r.request_id 7 && (r.purpose == "check" && fingerprint == "f0")
    then ok (word r.status)
    else err "another review"
print_run r (PersistedReviewOperation.write_file path content state) = err "another review"
print_run r (PersistedReviewOperation.http_post url body) = err "another review"

abbrev print_reviews : List PersistedPendingReview → Result String String
print_reviews [] = ok "nothing"
print_reviews (r ∷ []) = print_run r r.operation
print_reviews _ = err "more reviews"

abbrev print_state : PersistedPendingReviewState → Result String String
print_state state =
    if nat_beq state.version version then print_reviews state.reviews else err "another version"

abbrev read_state : String → Result PersistedPendingReviewState String
read_state text =
    if text == "nothing"
    then ok (state_of [])
    else if text == "waiting"
    then ok (state_of (persisted_run pending ∷ []))
    else if text == "claimed"
    then ok (state_of (persisted_run claimed ∷ []))
    else err "no state"

abbrev pub json : Serde
json = record { to_string_pretty = print_state; from_str = read_state }

read_run :
    (r : PersistedPendingReview) (operation : PersistedReviewOperation) (text : String)
    → r.operation ≡ operation
    → print_run r operation ≡ ok text
    → read_state text ≡ ok (state_of (r ∷ []))
read_run r (PersistedReviewOperation.run_cargo_test f) text e h = elim (status_cases r.status) [
  | inl p ↦
      let t : text ≡ "waiting" = ground (arith, p, h) in
      let same : r ≡ persisted_run pending =
        ground (arith, e, p, h, eq_iff r.purpose "check", eq_iff f "f0") in
      rw (t, same) refl
  | inr p ↦
      let t : text ≡ "claimed" = ground (arith, p, h) in
      let same : r ≡ persisted_run claimed =
        ground (arith, e, p, h, eq_iff r.purpose "check", eq_iff f "f0") in
      rw (t, same) refl
]
read_run r (PersistedReviewOperation.write_file path content state) text e h = cc
read_run r (PersistedReviewOperation.http_post url body) text e h = cc

read_reviews :
    (v : ℕ) (reviews : List PersistedPendingReview) (text : String)
    → print_state (record { version = v; reviews = reviews }) ≡ ok text
    → read_state text ≡ ok (record { version = v; reviews = reviews })
read_reviews v [] text h =
    let t : text ≡ "nothing" = ground (arith, h) in
    let same : v ≡ version = ground (arith, h) in rw (t, same) refl
read_reviews v (r ∷ []) text h =
    let same : v ≡ version = ground (arith, h) in
    rw (same) (read_run r r.operation text refl (ground (arith, h)))
read_reviews v (r ∷ r' ∷ rest) text h = ground (arith, h)

pub json-IsSerde : IsSerde json
json-IsSerde = record {
  reads_back = λ state text h. read_reviews state.version state.reviews text h;
}

-- Every URL is parsed as one of the default configuration's host.
abbrev pub url_of : String → Url
url_of text = record {
  as_str = text;
  scheme = "https";
  username = "";
  password = none;
  host = some (domain "api.example.com");
  host_str = some "api.example.com";
  port = none;
  port_or_known_default = some 443;
}

abbrev pub library : UrlLibrary
library = record { parse = λ text. ok (url_of text); host_parse = λ text. ok (domain text) }

abbrev pub waiting_store : Reviews
waiting_store = record { reviews = (7, test_run) ∷ []; claimed_reviews = [] }

abbrev pub state_path : FilePath
state_path = root_dir ∷ normal "state.json" ∷ []
