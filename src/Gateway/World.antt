-- ===== src/Gateway/World.antt =====
-- What the handlers of src/main.rs run on: the store with its directory, the answers of the outside at
-- each step, and the journal of what reached the audit log or ran.
use zyguor_agent_execution_g.Base.{
  ℕ, ◌+◌, String, Bool, Option, none, some, List, ◌∷◌, Result, ok, err, map_ok, map_err,
  if◌then◌else◌,
}
use zyguor_agent_execution_g.Execution.{HttpMethod}
use zyguor_agent_execution_g.Http.Url.{UrlLibrary}
use zyguor_agent_execution_g.Http.Destination.{ValidatedHttpUrl}
use zyguor_agent_execution_g.PendingReview.State.{Serde}
use zyguor_agent_execution_g.PendingReview.Disk.{SaveIo}
use zyguor_agent_execution_g.PendingReview.Store.{Durable}
use zyguor_agent_execution_g.Gateway.Types.{AuditRecord, CargoTestResult, HttpExecutionResult}
use zyguor_agent_execution_g.Gateway.Evaluate.{FileSystem}

-- A record was handed to the audit sink, which stored it or answered an error; the reviewed
-- operation of a request ran.
pub data Event : Type 0 where
  offered : AuditRecord → Option String → Event
  operated : (request_id : ℕ) → Event

-- The journal is newest first. `now` counts the calls of the outside.
pub record World : Type 0 where
  pub durable : Durable
  pub journal : List Event
  pub now : ℕ

-- What the outside answers, and what no source here decides: the clock in seconds, the poisoned
-- locks, the audit sink, the calls of a save, the workspace, the runner of `cargo test` and the
-- HTTP client.
pub record Env : Type 0 where
  pub json : Serde
  pub url : UrlLibrary
  pub save : ℕ → SaveIo
  pub clock : ℕ → Result ℕ String
  pub store_poisoned : ℕ → Bool
  pub audit_poisoned : ℕ → Bool
  pub sink : ℕ → AuditRecord → Option String
  pub filesystem : ℕ → FileSystem
  pub cargo_test : ℕ → (expected_fingerprint : String) → Result CargoTestResult String
  pub http : ℕ → HttpMethod → ValidatedHttpUrl → Option String → Result HttpExecutionResult String

-- A function that returns a `Result` and acts on the world.
abbrev pub Exec : Type 0 → Type 0 → Type 0
Exec E A = World → Result A E × World

-- The world after one more call of the outside.
abbrev pub tick : World → World
tick w = record w { now = w.now + 1 }

abbrev pub lift : {A E : Type 0} → Result A E → Exec E A
lift r w = (r, w)

-- `?` on the outcome of a call.
abbrev pub continue : {A B E : Type 0} → (A → Exec E B) → Result A E × World → Result B E × World
continue f (ok a, w) = f a w
continue f (err e, w) = (err e, w)

infixl 5 ◌>>=◌ ◌>>◌
abbrev pub ◌>>=◌ : {A B E : Type 0} → Exec E A → (A → Exec E B) → Exec E B
(m >>= f) w = continue f (m w)

abbrev pub ◌>>◌ : {A B E : Type 0} → Exec E A → Exec E B → Exec E B
m >> k = m >>= λ _. k

-- A `match` on the result of a call.
abbrev pub attempt :
    {A B : Type 0} → (World → A × World) → (A → World → B × World) → World → B × World
attempt m k w = k (m w).0 (m w).1

-- `.map_err(f)?`
abbrev pub map_failure : {A E F : Type 0} → (E → F) → Exec E A → Exec F A
map_failure f m w = (map_err f (m w).0, (m w).1)

-- `.map(f)`
abbrev pub map_success : {A B E : Type 0} → (A → B) → Exec E A → Exec E B
map_success f m w = (map_ok f (m w).0, (m w).1)

module _ (env : Env) where
  -- A call on the store under its lock.
  unfoldable pub with_store :
      {A E : Type 0} → E → (SaveIo → Durable → Result A E × Durable) → Exec E A
  with_store poisoned call w =
      if env.store_poisoned w.now
      then (err poisoned, tick w)
      else let done = call (env.save w.now) w.durable in
        (done.0, record w { durable = done.1; now = w.now + 1 })

  -- `persist_audit_locked`
  unfoldable pub persist_audit_locked : AuditRecord → Exec String (Unit {0})
  persist_audit_locked r w =
      if env.audit_poisoned w.now
      then (err "audit log lock poisoned", tick w)
      else elim (env.sink w.now r) [
        | none ↦ (ok tt, record w { journal = offered r none ∷ w.journal; now = w.now + 1 })
        | some error ↦
            (err error, record w { journal = offered r (some error) ∷ w.journal; now = w.now + 1 })
      ]

  -- The reviewed operation of a request runs.
  unfoldable pub operate : {A : Type 0} → ℕ → (ℕ → Result A String) → Exec String A
  operate request_id operation w =
      (operation w.now, record w { journal = operated request_id ∷ w.journal; now = w.now + 1 })
