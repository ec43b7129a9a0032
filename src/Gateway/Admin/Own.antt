-- ===== src/Gateway/Admin/Own.antt =====
-- The operation that an approved request stands for, and that it is the one that is carried out.
use zyguor_agent_execution_g.Base.{
  ℕ, ◌≤◌, ◌<◌, String, ◌<>◌, ◌≡◌, refl, ◌⊎◌, inl, inr, true, false, Bool-cases, none, some,
  Option-cases, ◌∷◌, Result, ok, err, map_ok, Result-cases, arith, ltb, leb,
}
use zyguor_agent_execution_g.Base.Text.{to_string}
use zyguor_agent_execution_g.Execution.{
  HttpMethod, post, WriteFileArguments, HttpRequestArguments, ExecutionRequest, add, read_file,
  write_file, git_status, run_cargo_test, http_request,
}
use zyguor_agent_execution_g.Execution.Equality.{method_beq}
use zyguor_agent_execution_g.Http.Destination.{ValidatedHttpUrl, validate_http_destination}
use zyguor_agent_execution_g.Config.{GatewayConfig}
use zyguor_agent_execution_g.PendingReview.{PendingReview}
use zyguor_agent_execution_g.Gateway.Types.{
  CargoTestResult, HttpExecutionResult, ExecutionResult, ReviewedOperationResult,
  failed_with_result,
}
use zyguor_agent_execution_g.Gateway.World.{World, Env, persist_audit_locked, operate}
use zyguor_agent_execution_g.Gateway.Action.{
  cargo_test_error, tested, answered, execute_cargo_test_with_config, execute_http_post_with_config,
}
use zyguor_agent_execution_g.Gateway.Review.{
  execute_claimed, execute_claimed_reviewed_action, execute_claimed_write,
}
use zyguor_agent_execution_g.Gateway.Review.Claimed.{operations, execute_claimed-operations}
use zyguor_agent_execution_g.Gateway.Admin.{
  execute_write, execute_cargo_test, execute_http, execute_approved,
}

abbrev pub Did : Type 0
Did = Result ReviewedOperationResult String

-- What a write is, by what the workspace answered.
abbrev pub IsWrite : Result (Unit {0}) String → Did → Type 0
IsWrite (ok u) did = did ≡ ok (ReviewedOperationResult.success none)
IsWrite (err error) did = did ≡ err error

-- What a test run is, by what the runner answered.
abbrev pub IsTest : Result CargoTestResult String → Did → Type 0
IsTest (err error) did = did ≡ err error
IsTest (ok result) did =
    ((result.success ≡ true)
      × (did ≡ ok (ReviewedOperationResult.success (some (ExecutionResult.cargo_test result)))))
    ⊎ ((result.success ≡ false)
        × (error : String) × (did
            ≡ ok (failed_with_result error (ExecutionResult.cargo_test result))))

-- What a POST is, by what the client answered: a status from 200 to 399 is a success.
abbrev pub IsAnswer : Result HttpExecutionResult String → Did → Type 0
IsAnswer (err error) did = did ≡ err error
IsAnswer (ok result) did =
    ((200 ≤ result.status_code)
      × (result.status_code < 400)
      × (did ≡ ok (ReviewedOperationResult.success (some (ExecutionResult.http result)))))
    ⊎ (((result.status_code < 200) ⊎ (400 ≤ result.status_code))
        × (error : String) × (did ≡ ok (failed_with_result error (ExecutionResult.http result))))

tested-IsTest :
    (answer : Result CargoTestResult String) → IsTest answer (execute_cargo_test_with_config answer)
unfolding execute_cargo_test_with_config tested
tested-IsTest (err error) = refl
tested-IsTest (ok result) = elim (Bool-cases result.success) [
  | inl p ↦ inl (p, ground (arith, p))
  | inr p ↦ inr (p, cargo_test_error result, ground (arith, p))
]

answered-IsAnswer : (result : HttpExecutionResult) → IsAnswer (ok result) (ok (answered result))
unfolding answered
answered-IsAnswer result = elim (Bool-cases (leb 200 result.status_code)) [
  | inr p ↦ inr (
    inl (ground (arith, p)),
    "HTTP POST returned status " <> to_string result.status_code,
    rw p refl,
  )
  | inl p ↦ elim (Bool-cases (ltb result.status_code 400)) [
    | inl q ↦ inl (ground (arith, p), ground (arith, q), rw (p, q) refl)
    | inr q ↦ inr (
      inr (ground (arith, q)),
      "HTTP POST returned status " <> to_string result.status_code,
      rw (p, q) refl,
    )
  ]
]

module _ (env : Env) (config : GatewayConfig) where
  -- A POST to the approved destination with the request's body, or the refusal of the destination.
  abbrev pub IsPost : HttpRequestArguments → ℕ → Did → Type 0
  IsPost arguments now did =
      ((destination : ValidatedHttpUrl) × (validate_http_destination env.url arguments.url
            config.http.allowed_hosts
          ≡ ok destination)
        × IsAnswer (env.http now post destination arguments.body) did)
      ⊎ ((error : String) × (validate_http_destination env.url arguments.url
              config.http.allowed_hosts
            ≡ err error)
          × (did ≡ err error))

  -- The operation that a request stands for, whenever it is carried out: the write of its content
  -- at its path, the test run at the fingerprint that was reviewed, or the POST of its body.
  abbrev pub IsOwn : PendingReview → ExecutionRequest → (ℕ → Did) → Type 0
  IsOwn pending (write_file arguments) operation =
      (now : ℕ)
      → IsWrite ((env.filesystem now).write_text_file arguments.path arguments.content)
          (operation now)
  IsOwn pending run_cargo_test operation =
      (fingerprint : String) × (pending.workspace_fingerprint ≡ some fingerprint)
      × ((now : ℕ) → IsTest (env.cargo_test now fingerprint) (operation now))
  IsOwn pending (http_request arguments) operation =
      (arguments.method ≡ post) × ((now : ℕ) → IsPost arguments now (operation now))
  IsOwn pending _ operation = ⊥

  map_ok-IsWrite :
      (answer : Result (Unit {0}) String)
      → IsWrite answer (map_ok (λ u. ReviewedOperationResult.success none) answer)
  map_ok-IsWrite (ok u) = refl
  map_ok-IsWrite (err error) = refl

  execute_http_post-IsPost :
      (arguments : HttpRequestArguments) (now : ℕ)
      → arguments.method ≡ post
      → IsPost arguments now (execute_http_post_with_config env.url (env.http now) arguments config)
  unfolding execute_http_post_with_config method_beq
  execute_http_post-IsPost arguments now e =
      elim (Result-cases
        (validate_http_destination env.url arguments.url config.http.allowed_hosts)) [
          | inr (error, p) ↦ inr (error, p, ground (arith, e, p))
          | inl (destination, p) ↦
              elim (Result-cases (env.http now post destination arguments.body)) [
                | inr (error, q) ↦
                    let whole : execute_http_post_with_config env.url (env.http now) arguments
                          config
                        ≡ err error =
                      ground (arith, e, p, q) in
                    inl (destination, p, rw (q, whole) refl)
                | inl (result, q) ↦
                    let whole : execute_http_post_with_config env.url (env.http now) arguments
                          config
                        ≡ ok (answered result) =
                      ground (arith, e, p, q) in
                    inl (destination, p, rw (q, whole) (answered-IsAnswer result))
              ]
        ]

  -- Nothing ran, or the operation of one request did, which is the request's own: it was carried
  -- out between its audit records, and the request was not among those that wait at the end.
  abbrev pub RunsOwn : PendingReview → ExecutionRequest → World → World → Type 0
  RunsOwn claimed request w w' =
      (operations w'.journal ≡ operations w.journal)
      ⊎ ((operations w'.journal ≡ claimed.request_id ∷ operations w.journal)
          × (w'.durable.store.reviews ≡ w.durable.store.reviews)
          × (name : String) × (operation : ℕ → Did) × IsOwn claimed request operation
          × (w'
              ≡ (execute_claimed env name claimed (persist_audit_locked env)
                  (operate env claimed.request_id operation) w).1))

  execute_claimed-RunsOwn :
      (name : String) (claimed : PendingReview) (request : ExecutionRequest) (operation : ℕ → Did)
      (w w' : World)
      → IsOwn claimed request operation
      → w'
        ≡ (execute_claimed env name claimed
            (persist_audit_locked env)
            (operate env claimed.request_id operation)
            w).1
      → RunsOwn claimed request w w'
  execute_claimed-RunsOwn name claimed request operation w w' own e =
      elim (execute_claimed-operations env name claimed claimed.request_id operation w) [
        | inl nothing ↦ inl (ground (arith, nothing, e))
        | inr (one, left) ↦
            inr (ground (arith, one, e), ground (arith, left, e), name, operation, own, e)
      ]

  execute_write-RunsOwn :
      (request_id : ℕ) (claimed : PendingReview) (a : WriteFileArguments) (w : World)
      → RunsOwn claimed
          (write_file a)
          w
          (execute_write env config request_id claimed a.path a.content w).1
  unfolding execute_write execute_claimed_write
  execute_write-RunsOwn request_id claimed a w =
      let operation : ℕ → Did = λ now.
        map_ok (λ u. ReviewedOperationResult.success none)
          ((env.filesystem now).write_text_file a.path a.content) in
      let done =
        execute_claimed env "reviewed write" claimed (persist_audit_locked env)
          (operate env claimed.request_id operation) w in
      let same : (execute_write env config request_id claimed a.path a.content w).1 ≡ done.1 =
        elim (Result-cases done.0) [
          | inl (o, q) ↦ ground (arith, q)
          | inr (e, q) ↦ ground (arith, q)
        ] in
      execute_claimed-RunsOwn "reviewed write" claimed (write_file a) operation w
        (execute_write env config request_id claimed a.path a.content w).1
        (λ now. map_ok-IsWrite ((env.filesystem now).write_text_file a.path a.content)) same

  execute_cargo_test-RunsOwn :
      (request_id : ℕ) (claimed : PendingReview) (w : World)
      → RunsOwn claimed run_cargo_test w (execute_cargo_test env config request_id claimed w).1
  unfolding execute_cargo_test execute_claimed_reviewed_action
  execute_cargo_test-RunsOwn request_id claimed w =
      elim (Option-cases claimed.workspace_fingerprint) [
        | inl p ↦ inl (ground (arith, p))
        | inr (f, p) ↦
            let operation : ℕ → Did =
              λ now. execute_cargo_test_with_config (env.cargo_test now f) in
            let done =
              execute_claimed env "reviewed operation" claimed (persist_audit_locked env)
                (operate env claimed.request_id operation) w in
            let same : (execute_cargo_test env config request_id claimed w).1 ≡ done.1 =
              elim (Result-cases done.0) [
                | inl (o, q) ↦ ground (arith, p, q)
                | inr (e, q) ↦ ground (arith, p, q)
              ] in
            execute_claimed-RunsOwn "reviewed operation" claimed run_cargo_test operation w
              (execute_cargo_test env config request_id claimed w).1
              (f, p, λ now. tested-IsTest (env.cargo_test now f)) same
      ]

  execute_http-RunsOwn :
      (request_id : ℕ) (claimed : PendingReview) (arguments : HttpRequestArguments)
      (method : HttpMethod) (w : World)
      → arguments.method ≡ method
      → RunsOwn claimed
          (http_request arguments)
          w
          (execute_http env config request_id claimed arguments method w).1
  unfolding execute_http execute_claimed_reviewed_action
  execute_http-RunsOwn request_id claimed arguments HttpMethod.get w m = inl refl
  execute_http-RunsOwn request_id claimed arguments HttpMethod.post w m =
      let operation : ℕ → Did =
        λ now. execute_http_post_with_config env.url (env.http now) arguments config in
      let done =
        execute_claimed env "reviewed operation" claimed (persist_audit_locked env)
          (operate env claimed.request_id operation) w in
      let same : (execute_http env config request_id claimed arguments HttpMethod.post w).1
          ≡ done.1 =
        elim (Result-cases done.0) [
          | inl (o, q) ↦ ground (arith, q)
          | inr (e, q) ↦ ground (arith, q)
        ] in
      execute_claimed-RunsOwn "reviewed operation" claimed (http_request arguments) operation w
        (execute_http env config request_id claimed arguments HttpMethod.post w).1
        (m, λ now. execute_http_post-IsPost arguments now m) same

  pub execute_approved-RunsOwn :
      (request_id : ℕ) (claimed : PendingReview) (request : ExecutionRequest) (w : World)
      → RunsOwn claimed request w (execute_approved env config request_id claimed request w).1
  unfolding execute_approved
  execute_approved-RunsOwn request_id claimed (add a) w = inl refl
  execute_approved-RunsOwn request_id claimed (read_file a) w = inl refl
  execute_approved-RunsOwn request_id claimed git_status w = inl refl
  execute_approved-RunsOwn request_id claimed (write_file a) w =
      execute_write-RunsOwn request_id claimed a w
  execute_approved-RunsOwn request_id claimed run_cargo_test w =
      execute_cargo_test-RunsOwn request_id claimed w
  execute_approved-RunsOwn request_id claimed (http_request a) w =
      execute_http-RunsOwn request_id claimed a a.method w refl
