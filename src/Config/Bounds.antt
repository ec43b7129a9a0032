-- ===== src/Config/Bounds.antt =====
-- What `validate` of src/config.rs accepts, said without its order of tests: the bounds, the
-- policy and the allow-list of an accepted configuration.
use zyguor_agent_execution_g.Base.{
  ℕ, ◌<◌, ◌≤◌, ◌≡◌, refl, ◌≢◌, ◌↔◌, Result, ok, err, arith, ◌>>◌, string_eq,
}
use zyguor_agent_execution_g.Policy.{CapabilityPolicyConfig, allow, review}
use zyguor_agent_execution_g.Http.Url.{UrlLibrary}
use zyguor_agent_execution_g.Config.{
  HttpExecutionConfig, CargoTestConfig, SandboxConfig, GatewayConfig,
}
use zyguor_agent_execution_g.Config.Hosts.{IsAllowList, validate_hosts_iff}
use zyguor_agent_execution_g.Config.Validate.{
  validate_policy, validate_http_execution, validate_http, validate_cargo_test, validate_sandbox,
  validate,
}

abbrev pub Within : ℕ → ℕ → Type 0
Within n most = (0 < n) × (n ≤ most)

pub record HttpLimits (c : HttpExecutionConfig) : Type 0 where
  pub timeout : Within c.timeout 60_000
  pub request : Within c.max_request_body_bytes 1_048_576
  pub response : Within c.max_response_body_bytes 4_194_304

pub record CargoLimits (c : CargoTestConfig) : Type 0 where
  pub timeout : Within c.timeout 600_000
  pub stdout : Within c.max_stdout_bytes 1_048_576
  pub stderr : Within c.max_stderr_bytes 1_048_576

pub record SandboxLimits (c : SandboxConfig) : Type 0 where
  pub fuel : Within c.fuel_limit 10_000_000
  pub memory : Within c.memory_limit_bytes 67_108_864
  pub timeout : Within c.timeout 5_000

-- No unreviewed write, test run or POST; no review of what cannot be reviewed.
pub record IsGated (p : CapabilityPolicyConfig) : Type 0 where
  pub write_file : p.write_file ≢ allow
  pub run_cargo_test : p.run_cargo_test ≢ allow
  pub http_post : p.http_post ≢ allow
  pub add : p.add ≢ review
  pub read_file : p.read_file ≢ review
  pub git_status : p.git_status ≢ review
  pub http_get : p.http_get ≢ review

http_limits : (c : HttpExecutionConfig) → (validate_http_execution c ≡ ok tt) ↔ HttpLimits c
unfolding validate_http_execution
http_limits c = (λ h. ground arith, λ h. ground arith)

cargo_limits : (c : CargoTestConfig) → (validate_cargo_test c ≡ ok tt) ↔ CargoLimits c
unfolding validate_cargo_test
cargo_limits c = (λ h. ground arith, λ h. ground arith)

sandbox_limits : (c : SandboxConfig) → (validate_sandbox c ≡ ok tt) ↔ SandboxLimits c
unfolding validate_sandbox
sandbox_limits c = (λ h. ground arith, λ h. ground arith)

policy-IsGated : (p : CapabilityPolicyConfig) → (validate_policy p ≡ ok tt) ↔ IsGated p
unfolding validate_policy
policy-IsGated p = (λ h. ground arith, λ h. ground arith)

-- What an accepted configuration is.
pub record IsValid (url : UrlLibrary) (c : GatewayConfig) : Type 0 where
  pub http : HttpLimits c.http.execution
  pub hosts : IsAllowList url c.http.allowed_hosts
  pub policy : IsGated c.policy
  pub cargo_test : CargoLimits c.cargo_test
  pub sandbox : SandboxLimits c.sandbox

-- `a? ; b`
then-eq-ok :
    {E : Type 0} (m k : Result (Unit {0}) E) → (m >> k ≡ ok tt) ↔ ((m ≡ ok tt) × (k ≡ ok tt))
then-eq-ok (ok a) k = (λ h. (refl, h), λ h. h.1)
then-eq-ok (err e) k = (λ h. cc, λ h. cc h.0)

-- `validate` accepts a configuration exactly when every number is positive and at most its fixed
-- bound, the policy lets no write, test run or POST through unreviewed and asks no review of the
-- other four operations, and the allow-list is of distinct domains, none of them localhost.
pub validate_iff : (url : UrlLibrary) (c : GatewayConfig) → (validate url c ≡ ok tt) ↔ IsValid url c
unfolding validate validate_http
validate_iff url c = (
  λ h.
      let (numbers, h₁) = (then-eq-ok _ _).0 h in
      let (policy, h₂) = (then-eq-ok _ _).0 h₁ in
      let (cargo, sandbox) = (then-eq-ok _ _).0 h₂ in
      let (execution, hosts) = (then-eq-ok _ _).0 numbers in
      record {
        http = (http_limits _).0 execution;
        hosts = (validate_hosts_iff url _).0 hosts;
        policy = (policy-IsGated _).0 policy;
        cargo_test = (cargo_limits _).0 cargo;
        sandbox = (sandbox_limits _).0 sandbox;
      },
  λ v. (then-eq-ok _ _).1 (
    (then-eq-ok _ _).1 ((http_limits _).1 v.http, (validate_hosts_iff url _).1 v.hosts),
    (then-eq-ok _ _).1 (
      (policy-IsGated _).1 v.policy,
      (then-eq-ok _ _).1 ((cargo_limits _).1 v.cargo_test, (sandbox_limits _).1 v.sandbox),
    ),
  ),
)
