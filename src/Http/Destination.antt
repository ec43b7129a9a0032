-- ===== src/Http/Destination.antt =====
-- `validate_http_destination` of src/http.rs.
pub mod Approved
use zyguor_agent_execution_g.Base.{
  ℕ, String, ◌<>◌, Bool, true, false, not, ◌||◌, Option, none, some, is_some, List, [], ◌∷◌, Result,
  ok, err, ◌>>=◌, ◌>>◌, fail_if, map_err, nat_beq, ◌==◌, string_eq,
}
use zyguor_agent_execution_g.Base.Text.{is_empty, eq_ignore_ascii_case}
use zyguor_agent_execution_g.Http.Url.{Host, domain, ipv4, ipv6, Url, UrlLibrary}

pub record ValidatedHttpUrl : Type 0 where
  pub url : Url

-- The `match url.host()`.
unfoldable pub require_domain : Option Host → Result String String
require_domain (some (domain host)) = ok host
require_domain (some ipv4) = err "HTTP destination must not use an IP-literal host"
require_domain (some ipv6) = err "HTTP destination must not use an IP-literal host"
require_domain none = err "HTTP destination must include a host"

-- `url.port().is_some_and(|port| port != 443)`
unfoldable pub other_port : Option ℕ → Bool
other_port none = false
other_port (some port) = not (nat_beq port 443)

-- `allowed_hosts.iter().any(...)`
unfoldable pub is_allowed : String → List String → Bool
is_allowed host [] = false
is_allowed host (allowed_host ∷ rest) =
    eq_ignore_ascii_case host allowed_host || is_allowed host rest

-- The tests on the parsed URL, in the source's order.
unfoldable pub check_destination : Url → List String → Result ValidatedHttpUrl String
check_destination url allowed_hosts = do
  fail_if (not (url.scheme == "https")) "HTTP destination must use HTTPS"
  fail_if (not (is_empty url.username) || is_some url.password)
      "HTTP destination must not contain embedded credentials"
  host ← require_domain url.host
  fail_if (eq_ignore_ascii_case host "localhost") "localhost HTTP destinations are not allowed"
  fail_if (other_port url.port) "HTTP destination must use the default HTTPS port"
  fail_if (not (is_allowed host allowed_hosts)) "HTTP destination host is not allowlisted"
  ok (record { url = url })

unfoldable pub validate_http_destination :
    UrlLibrary → String → List String → Result ValidatedHttpUrl String
validate_http_destination library input allowed_hosts = do
  url ← map_err (λ error. "invalid HTTP URL: " <> error) (library.parse input)
  check_destination url allowed_hosts
