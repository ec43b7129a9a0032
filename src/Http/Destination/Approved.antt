-- ===== src/Http/Destination/Approved.antt =====
-- What an approved destination is, and that an empty allow-list approves none.
use zyguor_agent_execution_g.Base.{
  String, ◌≡◌, refl, ◌≢◌, ◌↔◌, ◌⊎◌, inl, inr, true, Option, none, some, List, [], ◌∷◌, ok, arith,
  Result-cases, string_eq,
}
use zyguor_agent_execution_g.Base.Text.{is_empty, to_ascii_lowercase, eq_ignore_ascii_case}
use text.Mathlib.TextEquality.{eq_iff}
use zyguor_agent_execution_g.Http.Url.{Host, domain, ipv4, ipv6, Url, UrlLibrary}
use zyguor_agent_execution_g.Http.Destination.{
  ValidatedHttpUrl, require_domain, other_port, is_allowed, check_destination,
  validate_http_destination,
}

-- The host is an entry of the list, up to the case of ASCII letters.
abbrev pub Listed : String → List String → Type 0
Listed host [] = ⊥
Listed host (allowed_host ∷ rest) =
    (to_ascii_lowercase host ≡ to_ascii_lowercase allowed_host) ⊎ Listed host rest

pub record IsApproved (url : Url) (allowed_hosts : List String) : Type 0 where
  pub host : String
  pub scheme : url.scheme ≡ "https"
  pub no_user : is_empty url.username ≡ true
  pub no_password : url.password ≡ none
  pub named : url.host ≡ some (domain host)
  pub not_local : to_ascii_lowercase host ≢ "localhost"
  pub port : (url.port ≡ none) ⊎ (url.port ≡ some 443)
  pub listed : Listed host allowed_hosts

is_allowed-Listed :
    (host : String) (allowed_hosts : List String)
    → (is_allowed host allowed_hosts ≡ true) ↔ Listed host allowed_hosts
unfolding is_allowed eq_ignore_ascii_case
is_allowed-Listed host [] = (λ h. cc, λ h. absurd h)
is_allowed-Listed host (allowed_host ∷ rest) = (
  λ h. ground (
    arith,
    eq_iff (to_ascii_lowercase host) (to_ascii_lowercase allowed_host),
    (is_allowed-Listed host rest).0,
  ),
  λ h. ground (
    arith,
    eq_iff (to_ascii_lowercase host) (to_ascii_lowercase allowed_host),
    (is_allowed-Listed host rest).1,
  ),
)

local_iff :
    (host : String)
    → (eq_ignore_ascii_case host "localhost" ≡ true) ↔ (to_ascii_lowercase host ≡ "localhost")
unfolding eq_ignore_ascii_case to_ascii_lowercase
local_iff host = eq_iff (to_ascii_lowercase host) "localhost"

module _ (url : Url) (allowed_hosts : List String) where
  approve :
      (host : String) (v : ValidatedHttpUrl)
      → url.host ≡ some (domain host)
      → check_destination url allowed_hosts ≡ ok v
      → IsApproved url allowed_hosts
  unfolding check_destination require_domain other_port
  approve host v e h = record {
    host = host;
    scheme = ground (arith, e, eq_iff url.scheme "https");
    no_user = ground (arith, e);
    no_password = ground (arith, e);
    named = e;
    not_local = ground (arith, e, local_iff host);
    port = ground (arith, e);
    listed = (is_allowed-Listed host allowed_hosts).0 (ground (arith, e));
  }

  approve_host :
      (host : Option Host) (v : ValidatedHttpUrl)
      → url.host ≡ host
      → check_destination url allowed_hosts ≡ ok v
      → IsApproved url allowed_hosts
  unfolding check_destination require_domain
  approve_host none v e h = ground (arith, e)
  approve_host (some (domain host)) v e h = approve host v e h
  approve_host (some ipv4) v e h = ground (arith, e)
  approve_host (some ipv6) v e h = ground (arith, e)

  check_destination_same :
      (v : ValidatedHttpUrl) → check_destination url allowed_hosts ≡ ok v → v.url ≡ url
  unfolding check_destination
  check_destination_same v h = ground arith

  IsApproved-check :
      IsApproved url allowed_hosts → check_destination url allowed_hosts ≡ ok (record { url = url })
  unfolding check_destination require_domain other_port
  IsApproved-check a = ground (
    arith,
    a.named,
    eq_iff url.scheme "https",
    local_iff a.host,
    (is_allowed-Listed a.host allowed_hosts).1 a.listed,
  )

-- A destination is accepted exactly when it parses as an HTTPS URL without credentials, whose
-- host is a domain on the allow-list that is not localhost, with no port or port 443; and it is
-- that URL.
pub validate_http_destination_iff :
    (library : UrlLibrary) (input : String) (allowed_hosts : List String) (v : ValidatedHttpUrl)
    → (validate_http_destination library input allowed_hosts ≡ ok v)
      ↔ ((library.parse input ≡ ok v.url) × IsApproved v.url allowed_hosts)
unfolding validate_http_destination
validate_http_destination_iff library input allowed_hosts v = (
  λ h. elim (Result-cases (library.parse input)) [
    | inr (error, e) ↦ ground (arith, e)
    | inl (url, e) ↦
        let checked : check_destination url allowed_hosts ≡ ok v = ground (arith, e) in
        let same : v.url ≡ url = check_destination_same url allowed_hosts v checked in
        rw same (e, approve_host url allowed_hosts url.host v refl checked)
  ],
  λ h. rw h.0 (IsApproved-check v.url allowed_hosts h.1),
)

-- With an empty allow-list no destination is accepted.
empty_list_blocks :
    (library : UrlLibrary) (input : String) (v : ValidatedHttpUrl)
    → validate_http_destination library input [] ≢ ok v
empty_list_blocks library input v h =
    ((validate_http_destination_iff library input [] v).0 h).1.listed
