-- ===== src/Config/Settings.antt =====
-- The sections of a configuration file, setting by setting.
use mathlib.Core.Path.{subst}
use zyguor_agent_execution_g.Base.{
  ℕ, ◌*◌, String, ◌≡◌, refl, Option, none, some, Result, ok, bind-ok, arith,
}
use zyguor_agent_execution_g.Base.Text.{trim, to_ascii_lowercase}
use zyguor_agent_execution_g.Policy.{PolicyDecision, CapabilityPolicyConfig}
use zyguor_agent_execution_g.Config.{default_config}
use zyguor_agent_execution_g.Config.Resolve.{word, parse_policy_decision_iff}
use zyguor_agent_execution_g.Config.Parse.{
  HttpConfigFile, CargoTestConfigFile, SandboxConfigFile, CapabilityPolicyConfigFile, or_keep,
  in_secs, in_millis, or_parse, apply_http, apply_cargo_test, apply_sandbox, apply_policy,
}

-- A setting of a section, where the file has the section and sets it.
abbrev pub setting : {S A : Type 0} → Option S → (S → Option A) → Option A
setting none field = none
setting (some section) field = field section

-- The value is what the setting says, or else the default.
abbrev pub Follows : {A B : Type 0} → Option A → (A → B → Type 0) → B → B → Type 0
Follows none says kept value = value ≡ kept
Follows (some a) says kept value = says a value

abbrev pub Exactly : {A : Type 0} → A → A → Type 0
Exactly a value = value ≡ a

abbrev pub Seconds : ℕ → ℕ → Type 0
Seconds s milliseconds = milliseconds ≡ s * 1000

-- A policy word, up to the case of ASCII letters and white space around it.
abbrev pub Says : String → PolicyDecision → Type 0
Says text decision = to_ascii_lowercase (trim text) ≡ word decision

or_keep-Follows : {A : Type 0} (o : Option A) (old : A) → Follows o Exactly old (or_keep o old)
or_keep-Follows none old = refl
or_keep-Follows (some new) old = refl

in_secs-Follows : (o : Option ℕ) (old : ℕ) → Follows o Seconds old (in_secs o old)
in_secs-Follows none old = refl
in_secs-Follows (some new) old = omega arith

in_millis-Follows : (o : Option ℕ) (old : ℕ) → Follows o Exactly old (in_millis o old)
in_millis-Follows none old = refl
in_millis-Follows (some new) old = refl

or_parse-Follows :
    (name : String) (o : Option String) (old d : PolicyDecision)
    → or_parse name o old ≡ ok d
    → Follows o Says old d
unfolding or_parse
or_parse-Follows name none old d h = ground (arith, h)
or_parse-Follows name (some text) old d h = (parse_policy_decision_iff name text d).0 h

same_policy :
    (p q : CapabilityPolicyConfig)
    → ◌≡◌ {A = Result CapabilityPolicyConfig String} (ok p) (ok q)
    → p ≡ q
same_policy p q h = ground (arith, h)

abbrev pub PolicyFollows : Option CapabilityPolicyConfigFile → CapabilityPolicyConfig → Type 0
PolicyFollows section p =
    Follows (setting section λ s. s.add) Says default_config.policy.add p.add
    × Follows (setting section λ s. s.read_file) Says default_config.policy.read_file p.read_file
    × Follows (setting section λ s. s.write_file) Says default_config.policy.write_file p.write_file
    × Follows (setting section λ s. s.git_status) Says default_config.policy.git_status p.git_status
    × Follows (setting section λ s. s.run_cargo_test) Says default_config.policy.run_cargo_test
        p.run_cargo_test
    × Follows (setting section λ s. s.http_get) Says default_config.policy.http_get p.http_get
    × Follows (setting section λ s. s.http_post) Says default_config.policy.http_post p.http_post

pub apply_policy-Follows :
    (section : Option CapabilityPolicyConfigFile) (p : CapabilityPolicyConfig)
    → apply_policy section default_config.policy ≡ ok p
    → PolicyFollows section p
unfolding apply_policy
apply_policy-Follows none p h =
    subst (λ q. PolicyFollows none q) (same_policy default_config.policy p h)
      (refl, refl, refl, refl, refl, refl, refl)
apply_policy-Follows (some s) p h =
    let (a, p0, h0) = bind-ok (or_parse "add" s.add default_config.policy.add) _ p h in
    let (b, p1, h1) =
      bind-ok (or_parse "read_file" s.read_file default_config.policy.read_file) _ p h0 in
    let (c, p2, h2) =
      bind-ok (or_parse "write_file" s.write_file default_config.policy.write_file) _ p h1 in
    let (d, p3, h3) =
      bind-ok (or_parse "git_status" s.git_status default_config.policy.git_status) _ p h2 in
    let (e, p4, h4) =
      bind-ok (or_parse "run_cargo_test" s.run_cargo_test default_config.policy.run_cargo_test) _ p
        h3 in
    let (f, p5, h5) =
      bind-ok (or_parse "http_get" s.http_get default_config.policy.http_get) _ p h4 in
    let (g, p6, h6) =
      bind-ok (or_parse "http_post" s.http_post default_config.policy.http_post) _ p h5 in
    subst (λ q. PolicyFollows (some s) q)
      (same_policy
        (record {
          add = a;
          read_file = b;
          write_file = c;
          git_status = d;
          run_cargo_test = e;
          http_get = f;
          http_post = g;
        })
        p h6)
      (
        or_parse-Follows "add" s.add default_config.policy.add a p0,
        or_parse-Follows "read_file" s.read_file default_config.policy.read_file b p1,
        or_parse-Follows "write_file" s.write_file default_config.policy.write_file c p2,
        or_parse-Follows "git_status" s.git_status default_config.policy.git_status d p3,
        or_parse-Follows "run_cargo_test" s.run_cargo_test default_config.policy.run_cargo_test e
            p4,
        or_parse-Follows "http_get" s.http_get default_config.policy.http_get f p5,
        or_parse-Follows "http_post" s.http_post default_config.policy.http_post g p6,
      )

pub apply_http-Follows :
    (section : Option HttpConfigFile)
    → let c = apply_http section default_config.http in
      Follows
        (setting section λ s. s.allowed_hosts)
        Exactly
        default_config.http.allowed_hosts
        c.allowed_hosts
      × Follows
          (setting section λ s. s.timeout_seconds)
          Seconds
          default_config.http.execution.timeout
          c.execution.timeout
      × Follows
          (setting section λ s. s.max_request_body_bytes)
          Exactly
          default_config.http.execution.max_request_body_bytes
          c.execution.max_request_body_bytes
      × Follows
          (setting section λ s. s.max_response_body_bytes)
          Exactly
          default_config.http.execution.max_response_body_bytes
          c.execution.max_response_body_bytes
unfolding apply_http
apply_http-Follows none = (refl, refl, refl, refl)
apply_http-Follows (some s) = (
  or_keep-Follows s.allowed_hosts _,
  in_secs-Follows s.timeout_seconds _,
  or_keep-Follows s.max_request_body_bytes _,
  or_keep-Follows s.max_response_body_bytes _,
)

pub apply_cargo_test-Follows :
    (section : Option CargoTestConfigFile)
    → let c = apply_cargo_test section default_config.cargo_test in
      Follows
        (setting section λ s. s.timeout_seconds)
        Seconds
        default_config.cargo_test.timeout
        c.timeout
      × Follows
          (setting section λ s. s.max_stdout_bytes)
          Exactly
          default_config.cargo_test.max_stdout_bytes
          c.max_stdout_bytes
      × Follows
          (setting section λ s. s.max_stderr_bytes)
          Exactly
          default_config.cargo_test.max_stderr_bytes
          c.max_stderr_bytes
unfolding apply_cargo_test
apply_cargo_test-Follows none = (refl, refl, refl)
apply_cargo_test-Follows (some s) = (
  in_secs-Follows s.timeout_seconds _,
  or_keep-Follows s.max_stdout_bytes _,
  or_keep-Follows s.max_stderr_bytes _,
)

pub apply_sandbox-Follows :
    (section : Option SandboxConfigFile)
    → let c = apply_sandbox section default_config.sandbox in
      Follows
        (setting section λ s. s.fuel_limit)
        Exactly
        default_config.sandbox.fuel_limit
        c.fuel_limit
      × Follows
          (setting section λ s. s.memory_limit_bytes)
          Exactly
          default_config.sandbox.memory_limit_bytes
          c.memory_limit_bytes
      × Follows
          (setting section λ s. s.timeout_milliseconds)
          Exactly
          default_config.sandbox.timeout
          c.timeout
unfolding apply_sandbox
apply_sandbox-Follows none = (refl, refl, refl)
apply_sandbox-Follows (some s) = (
  or_keep-Follows s.fuel_limit _,
  or_keep-Follows s.memory_limit_bytes _,
  in_millis-Follows s.timeout_milliseconds _,
)
