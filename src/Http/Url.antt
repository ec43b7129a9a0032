-- ===== src/Http/Url.antt =====
-- The part of the `url` crate that the gateway calls. The crate is third-party: its two parsers
-- are a parameter, and a parsed URL is the record of what its accessors answer.
use zyguor_agent_execution_g.Base.{ℕ, String, Option, Result}

-- `url::Host`; the addresses of the IP literals are not read by the gateway.
pub data Host : Type 0 where
  domain : String → Host
  ipv4 ipv6 : Host

-- `url::Url`
pub record Url : Type 0 where
  pub as_str : String
  pub scheme : String
  pub username : String
  pub password : Option String
  pub host : Option Host
  pub host_str : Option String
  pub port : Option ℕ
  pub port_or_known_default : Option ℕ

-- `Url::parse` and `Host::parse`, with their errors as they are displayed.
pub record UrlLibrary : Type 0 where
  pub parse : String → Result Url String
  pub host_parse : String → Result Host String
