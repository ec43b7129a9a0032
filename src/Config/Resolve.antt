-- ===== src/Config/Resolve.antt =====
-- The configuration that the gateway starts with has passed `validate`, wherever it comes from.
use zyguor_agent_execution_g.Base.{
  String, ◌≡◌, inl, inr, Option, none, some, Result, ok, arith, Result-cases, ◌↔◌,
}
use text.Mathlib.TextEquality.{eq_iff}
use zyguor_agent_execution_g.Base.Text.{trim, to_ascii_lowercase}
use zyguor_agent_execution_g.Policy.{PolicyDecision, allow, review, block}
use zyguor_agent_execution_g.Http.Url.{UrlLibrary}
use zyguor_agent_execution_g.Config.{GatewayConfig, default_config}
use zyguor_agent_execution_g.Config.Validate.{validate}
use zyguor_agent_execution_g.Config.Bounds.{IsValid, validate_iff}
use zyguor_agent_execution_g.Config.Parse.{
  GatewayConfigFile, parse_policy_decision, apply_file, parse_gateway_config_toml,
  load_gateway_config_from_path, resolve_gateway_config,
}

module _ (url : UrlLibrary) (from_str : String → Result GatewayConfigFile String) where
  pub parse_gateway_config_toml-IsValid :
      (input : String) (c : GatewayConfig)
      → parse_gateway_config_toml url from_str input ≡ ok c
      → IsValid url c
        × ((file : GatewayConfigFile) × (from_str input ≡ ok file) × (apply_file file ≡ ok c))
  unfolding parse_gateway_config_toml
  parse_gateway_config_toml-IsValid input c h = elim (Result-cases (from_str input)) [
    | inr (e, p) ↦ ground (arith, p)
    | inl (file, p) ↦ elim (Result-cases (apply_file file)) [
      | inr (e, q) ↦ ground (arith, p, q)
      | inl (config, q) ↦ elim (Result-cases (validate url config)) [
        | inr (e, r) ↦ ground (arith, p, q, r)
        | inl (u, r) ↦
            let same : config ≡ c = ground (arith, p, q, r) in
            ((validate_iff url c).0 (rw (← same) r), (file, p, rw (← same) q))
      ]
    ]
  ]

  module _ (read_to_string : String → Result String String) where
    pub load-IsValid :
        (path : String) (c : GatewayConfig)
        → load_gateway_config_from_path url from_str read_to_string path ≡ ok c
        → IsValid url c
    unfolding load_gateway_config_from_path
    load-IsValid path c h = elim (Result-cases (read_to_string path)) [
      | inr (e, p) ↦ ground (arith, p)
      | inl (contents, p) ↦ (parse_gateway_config_toml-IsValid contents c (ground (arith, p))).0
    ]

    -- Whether it comes from a file or is the default, a resolved configuration is valid.
    pub resolve_gateway_config-IsValid :
        (path : Option String) (c : GatewayConfig)
        → resolve_gateway_config url from_str read_to_string path ≡ ok c
        → IsValid url c
    unfolding resolve_gateway_config
    resolve_gateway_config-IsValid (some path) c h = load-IsValid path c h
    resolve_gateway_config-IsValid none c h = elim (Result-cases (validate url default_config)) [
      | inr (e, p) ↦ ground (arith, p)
      | inl (u, p) ↦
          let same : default_config ≡ c = ground (arith, p) in
          (validate_iff url c).0 (rw (← same) p)
    ]

-- The decision that a policy word stands for.
abbrev pub word : PolicyDecision → String
word allow = "allow"
word review = "review"
word block = "block"

-- A policy value is read as a decision exactly when it is that decision's word, up to the case of
-- ASCII letters and white space around it.
pub parse_policy_decision_iff :
    (name value : String) (d : PolicyDecision)
    → (parse_policy_decision name value ≡ ok d) ↔ (to_ascii_lowercase (trim value) ≡ word d)
unfolding parse_policy_decision
parse_policy_decision_iff name value allow =
    let w : String = to_ascii_lowercase (trim value) in
    ground (
      arith,
      eq_iff w "allow",
      eq_iff w "review",
      eq_iff w "block",
      eq_iff "review" "allow",
      eq_iff "block" "allow",
      eq_iff "block" "review",
    )
parse_policy_decision_iff name value _ =
    let w : String = to_ascii_lowercase (trim value) in
    ground (
      arith,
      eq_iff w "allow",
      eq_iff w "review",
      eq_iff w "block",
      eq_iff "review" "allow",
      eq_iff "block" "allow",
      eq_iff "block" "review",
    )
