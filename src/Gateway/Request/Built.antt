-- ===== src/Gateway/Request/Built.antt =====
-- What is true of every request that the gateway builds.
use zyguor_agent_execution_g.Base.{
  String, ◌≡◌, refl, ◌⊎◌, inl, inr, Bool, true, false, Option, none, some, Result, ok, err,
  Option-cases, Result-cases, Bool-cases, if◌then◌else◌, ◌==◌, string_eq, ◌<>◌,
}
use mathlib.Core.Path.{subst}
use zyguor_agent_execution_g.Base.Text.{trim, is_empty, to_ascii_lowercase}
use zyguor_agent_execution_g.Execution.{
  HttpMethod, get, post, ExecutionRequest, add, read_file, write_file, git_status, run_cargo_test,
  http_request,
}
use zyguor_agent_execution_g.Gateway.Types.{ExecutionArgumentsParams, ExecuteParams}
use zyguor_agent_execution_g.Gateway.Request.{
  build_add, build_read_file, build_write_file, parse_method, has_get_body, build_http_request,
  build_execution_request,
}

-- Paths and URLs are not blank, and a GET has no body.
abbrev pub IsBuilt : ExecutionRequest → Type 0
IsBuilt (add arguments) = Unit
IsBuilt (read_file arguments) = is_empty (trim arguments.path) ≡ false
IsBuilt (write_file arguments) = is_empty (trim arguments.path) ≡ false
IsBuilt git_status = Unit
IsBuilt run_cargo_test = Unit
IsBuilt (http_request arguments) =
    (is_empty (trim arguments.url) ≡ false) × ((arguments.method ≡ post) ⊎ (arguments.body ≡ none))

abbrev Built : Result ExecutionRequest String → Type 0
Built (ok request) = IsBuilt request
Built (err e) = Unit

add-Built : (a : ExecutionArgumentsParams) → Built (build_add a)
unfolding build_add
add-Built a = elim (Option-cases a.left) [
  | inl p ↦ rw (p, build_add) tt
  | inr (l, p) ↦ elim (Option-cases a.right) [
    | inl q ↦ rw (p, q, build_add) tt
    | inr (r, q) ↦ rw (p, q, build_add) tt
  ]
]

read-Built : (a : ExecutionArgumentsParams) → Built (build_read_file a)
unfolding build_read_file
read-Built a = elim (Option-cases a.path) [
  | inl p ↦ rw (p, build_read_file) tt
  | inr (path, p) ↦ elim (Bool-cases (is_empty (trim path))) [
    | inl q ↦ rw (p, q, build_read_file) tt
    | inr q ↦ rw (p, q, build_read_file) q
  ]
]

write-Built : (a : ExecutionArgumentsParams) → Built (build_write_file a)
unfolding build_write_file
write-Built a = elim (Option-cases a.path) [
  | inl p ↦ rw (p, build_write_file) tt
  | inr (path, p) ↦ elim (Bool-cases (is_empty (trim path))) [
    | inl q ↦ rw (p, q, build_write_file) tt
    | inr q ↦ elim (Option-cases a.content) [
      | inl r ↦ rw (p, q, r, build_write_file) tt
      | inr (c, r) ↦ rw (p, q, r, build_write_file) q
    ]
  ]
]

get_body :
    (method : HttpMethod) (body : Option String)
    → has_get_body method body ≡ false
    → (method ≡ post) ⊎ (body ≡ none)
unfolding has_get_body
get_body get none h = inr refl
get_body get (some b) h = cc
get_body post body h = inl refl

http-Built : (a : ExecutionArgumentsParams) → Built (build_http_request a)
unfolding build_http_request
http-Built a = elim (Option-cases a.method) [
  | inl p ↦ rw (p, build_http_request) tt
  | inr (given, p) ↦ elim (Result-cases (parse_method given)) [
    | inr (e, q) ↦ rw (p, q, build_http_request) tt
    | inl (method, q) ↦ elim (Option-cases a.url) [
      | inl r ↦ rw (p, q, r, build_http_request) tt
      | inr (url, r) ↦ elim (Bool-cases (is_empty (trim url))) [
        | inl s ↦ rw (p, q, r, s, build_http_request) tt
        | inr s ↦ elim (Bool-cases (has_get_body method a.body)) [
          | inl t ↦ rw (p, q, r, s, t, build_http_request) tt
          | inr t ↦ rw (p, q, r, s, t, build_http_request) (s, get_body method a.body t)
        ]
      ]
    ]
  ]
]

-- `if b then m else n`
either :
    (b : Bool) (m n : Result ExecutionRequest String)
    → Built m
    → Built n
    → Built (if b then m else n)
either true m n h k = h
either false m n h k = k

all-Built : (params : ExecuteParams) → Built (build_execution_request params)
unfolding build_execution_request
all-Built params =
    let a = params.arguments in
    let other = to_ascii_lowercase (trim params.operation) in
    let last : Result ExecutionRequest String =
      if other == "run_cargo_test"
      then ok run_cargo_test
      else err ("unsupported operation: " <> other) in
    let from_git = if other == "git_status" then ok git_status else last in
    let from_http = if other == "http_request" then build_http_request a else from_git in
    let from_write = if other == "write_file" then build_write_file a else from_http in
    let from_read = if other == "read_file" then build_read_file a else from_write in
    either (other == "add") (build_add a) from_read (add-Built a) (
      either (other == "read_file") (build_read_file a) from_write (read-Built a) (
        either (other == "write_file") (build_write_file a) from_http (write-Built a) (
          either (other == "http_request") (build_http_request a) from_git (http-Built a) (
            either (other == "git_status") (ok git_status) last tt (
              either (other == "run_cargo_test") (ok run_cargo_test)
                (err ("unsupported operation: " <> other)) tt tt)))))

-- Every request that is built has a path or URL that is not blank, if it has one, and a body only
-- if it is a POST.
pub build_execution_request-IsBuilt :
    (params : ExecuteParams) (request : ExecutionRequest)
    → build_execution_request params ≡ ok request
    → IsBuilt request
build_execution_request-IsBuilt params request h = subst Built h (all-Built params)
