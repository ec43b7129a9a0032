-- ===== src/Http/Outbound.antt =====
-- `is_safe_outbound_ip` and `resolve_safe_outbound_addresses` of src/http_execution.rs, with the
-- methods of `std::net` that they call.
pub mod Blocks
pub mod Resolved
use zyguor_agent_execution_g.Base.{
  ℕ, ◌/◌, ◌*◌, ◌+◌, String, ◌<>◌, Bool, true, false, not, ◌&&◌, ◌||◌, List, [], ◌∷◌, ◌++◌, Result,
  ok, err, ◌>>=◌, ◌>>◌, fail_if, map_err, leb, nat_beq, if◌then◌else◌,
}

-- Four octets below 2^8, or eight segments below 2^16.
pub data IpAddr : Type 0 where
  v4 : (a b c d : ℕ) → IpAddr
  v6 : (s₀ s₁ s₂ s₃ s₄ s₅ s₆ s₇ : ℕ) → IpAddr

pub record SocketAddr : Type 0 where
  pub ip : IpAddr
  pub port : ℕ

-- `Ipv4Addr::is_loopback` and its like, over the octets.
abbrev pub v4_loopback : ℕ → Bool
v4_loopback a = nat_beq a 127

abbrev pub v4_private : ℕ → ℕ → Bool
v4_private a b =
    nat_beq a 10 || (nat_beq a 172 && (leb 16 b && leb b 31)) || (nat_beq a 192 && nat_beq b 168)

abbrev pub v4_link_local : ℕ → ℕ → Bool
v4_link_local a b = nat_beq a 169 && nat_beq b 254

abbrev pub v4_unspecified : ℕ → ℕ → ℕ → ℕ → Bool
v4_unspecified a b c d = nat_beq a 0 && (nat_beq b 0 && (nat_beq c 0 && nat_beq d 0))

abbrev pub v4_broadcast : ℕ → ℕ → ℕ → ℕ → Bool
v4_broadcast a b c d = nat_beq a 255 && (nat_beq b 255 && (nat_beq c 255 && nat_beq d 255))

abbrev pub v4_multicast : ℕ → Bool
v4_multicast a = leb 224 a && leb a 239

abbrev pub is_shared_address_space : ℕ → ℕ → Bool
is_shared_address_space a b = nat_beq a 100 && (leb 64 b && leb b 127)

abbrev pub is_benchmarking : ℕ → ℕ → Bool
is_benchmarking a b = nat_beq a 198 && (nat_beq b 18 || nat_beq b 19)

-- `Ipv6Addr::is_unique_local` (fc00::/7), `is_unicast_link_local` (fe80::/10), `is_multicast`
-- (ff00::/8): a mask of the first segment is a division.
abbrev pub v6_unique_local : ℕ → Bool
v6_unique_local s₀ = nat_beq (s₀ / 512) 0x7e

abbrev pub v6_link_local : ℕ → Bool
v6_link_local s₀ = nat_beq (s₀ / 64) 0x3fa

abbrev pub v6_multicast : ℕ → Bool
v6_multicast s₀ = nat_beq (s₀ / 256) 0xff

-- The first seven segments are zero.
abbrev pub leading_zeros : ℕ → ℕ → ℕ → ℕ → ℕ → ℕ → ℕ → Bool
leading_zeros s₀ s₁ s₂ s₃ s₄ s₅ s₆ =
    nat_beq s₀ 0
    && (nat_beq s₁ 0
        && (nat_beq s₂ 0 && (nat_beq s₃ 0 && (nat_beq s₄ 0 && (nat_beq s₅ 0 && nat_beq s₆ 0)))))

unfoldable pub is_safe_outbound_ip : IpAddr → Bool
is_safe_outbound_ip (v4 a b c d) = not (
    v4_loopback a
    || (v4_private a b
        || (v4_link_local a b
            || (v4_unspecified a b c d
                || (v4_broadcast a b c d
                    || (v4_multicast a || (is_shared_address_space a b || is_benchmarking a b)))))))
is_safe_outbound_ip (v6 s₀ s₁ s₂ s₃ s₄ s₅ s₆ s₇) = not (
    (leading_zeros s₀ s₁ s₂ s₃ s₄ s₅ s₆ && nat_beq s₇ 1)
    || ((leading_zeros s₀ s₁ s₂ s₃ s₄ s₅ s₆ && nat_beq s₇ 0)
        || (v6_unique_local s₀ || (v6_link_local s₀ || v6_multicast s₀))))

unfoldable pub ip_beq : IpAddr → IpAddr → Bool
ip_beq (v4 a b c d) (v4 a' b' c' d') =
    nat_beq a a' && (nat_beq b b' && (nat_beq c c' && nat_beq d d'))
ip_beq (v6 s₀ s₁ s₂ s₃ s₄ s₅ s₆ s₇) (v6 t₀ t₁ t₂ t₃ t₄ t₅ t₆ t₇) =
    nat_beq s₀ t₀
    && (nat_beq s₁ t₁
        && (nat_beq s₂ t₂
            && (nat_beq s₃ t₃
                && (nat_beq s₄ t₄ && (nat_beq s₅ t₅ && (nat_beq s₆ t₆ && nat_beq s₇ t₇))))))
ip_beq _ _ = false

unfoldable pub addr_beq : SocketAddr → SocketAddr → Bool
unfolding ip_beq
addr_beq x y = ip_beq x.ip y.ip && nat_beq x.port y.port

unfoldable pub contains : List SocketAddr → SocketAddr → Bool
contains [] address = false
contains (other ∷ rest) address = addr_beq other address || contains rest address

-- `Display` of an `IpAddr` and the resolver of the operating system are parameters.
module _ (display : IpAddr → String) where
  unfoldable pub collect_addresses :
      List SocketAddr → List SocketAddr → Result (List SocketAddr) String
  collect_addresses addresses [] = ok addresses
  collect_addresses addresses (address ∷ resolved) = do
    fail_if (not (is_safe_outbound_ip address.ip))
        ("HTTP destination resolved to a disallowed address: " <> display address.ip)
    collect_addresses (if contains addresses address then addresses else addresses ++ address ∷ [])
        resolved

  unfoldable pub require_addresses : List SocketAddr → Result (List SocketAddr) String
  require_addresses [] = err "HTTP destination resolved to no addresses"
  require_addresses (address ∷ rest) = ok (address ∷ rest)

  -- `resolved` is what the resolver answers for the host and port.
  unfoldable pub resolve_safe_outbound_addresses :
      Result (List SocketAddr) String → Result (List SocketAddr) String
  resolve_safe_outbound_addresses resolved = do
    answer ← map_err (λ error. "failed to resolve HTTP destination: " <> error) resolved
    addresses ← collect_addresses [] answer
    require_addresses addresses
