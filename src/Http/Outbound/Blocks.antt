-- ===== src/Http/Outbound/Blocks.antt =====
-- The addresses that the gateway refuses to connect to, as blocks of the address space.
use zyguor_agent_execution_g.Base.{ℕ, ◌+◌, ◌*◌, ◌<◌, ◌≡◌, ◌≢◌, ◌↔◌, refl, true, false, arith}
use zyguor_agent_execution_g.Http.Outbound.{
  IpAddr, v4, v6, is_safe_outbound_ip, v4_loopback, v4_private, v4_link_local, v4_unspecified,
  v4_broadcast, v4_multicast, is_shared_address_space, is_benchmarking,
}

-- The 32 bits of an IPv4 address.
abbrev pub bits : ℕ → ℕ → ℕ → ℕ → ℕ
bits a b c d = a * 16777216 + b * 65536 + c * 256 + d

-- `n` lies in the block of `size` addresses that starts at `base`.
abbrev pub InBlock : ℕ → ℕ → ℕ → Type 0
InBlock base size n = (base < n + 1) × (n < base + size)

-- 127.0.0.0/8, 10.0.0.0/8, 172.16.0.0/12, 192.168.0.0/16, 169.254.0.0/16, 0.0.0.0/32,
-- 255.255.255.255/32, 224.0.0.0/4, 100.64.0.0/10 and 198.18.0.0/15
pub record IsPublic (n : ℕ) : Type 0 where
  pub loopback : ¬ InBlock 0x7f000000 0x1000000 n
  pub private_a : ¬ InBlock 0x0a000000 0x1000000 n
  pub private_b : ¬ InBlock 0xac100000 0x100000 n
  pub private_c : ¬ InBlock 0xc0a80000 0x10000 n
  pub link_local : ¬ InBlock 0xa9fe0000 0x10000 n
  pub unspecified : n ≢ 0
  pub broadcast : n ≢ 0xffffffff
  pub multicast : ¬ InBlock 0xe0000000 0x10000000 n
  pub shared : ¬ InBlock 0x64400000 0x400000 n
  pub benchmarking : ¬ InBlock 0xc6120000 0x20000 n

module _ (a b c d : ℕ) (oa : a < 256) (ob : b < 256) (oc : c < 256) (od : d < 256) where
  safe→IsPublic : is_safe_outbound_ip (v4 a b c d) ≡ true → IsPublic (bits a b c d)
  unfolding is_safe_outbound_ip
  safe→IsPublic h = record {
    loopback = λ k. ground arith;
    private_a = λ k. ground arith;
    private_b = λ k. ground arith;
    private_c = λ k. ground arith;
    link_local = λ k. ground arith;
    unspecified = λ k. ground arith;
    broadcast = λ k. ground arith;
    multicast = λ k. ground arith;
    shared = λ k. ground arith;
    benchmarking = λ k. ground arith;
  }

  IsPublic→safe : IsPublic (bits a b c d) → is_safe_outbound_ip (v4 a b c d) ≡ true
  unfolding is_safe_outbound_ip
  IsPublic→safe p =
      rw
        (
          (let e : v4_loopback a ≡ false = ground (arith, p.loopback) in e),
          (let e : v4_private a b ≡ false = ground (arith, p.private_a, p.private_b, p.private_c) in
              e),
          (let e : v4_link_local a b ≡ false = ground (arith, p.link_local) in e),
          (let e : v4_unspecified a b c d ≡ false = ground (arith, p.unspecified) in e),
          (let e : v4_broadcast a b c d ≡ false = ground (arith, p.broadcast) in e),
          (let e : v4_multicast a ≡ false = ground (arith, p.multicast) in e),
          (let e : is_shared_address_space a b ≡ false = ground (arith, p.shared) in e),
          (let e : is_benchmarking a b ≡ false = ground (arith, p.benchmarking) in e),
        )
        refl

-- An IPv4 address is taken as safe exactly when it lies in none of the ten blocks that are refused:
-- loopback, the three private ones, link-local, unspecified, broadcast, multicast, the shared
-- address space and the benchmarking block.
pub is_safe_outbound_ip_iff :
    (a b c d : ℕ)
    → a < 256
    → b < 256
    → c < 256
    → d < 256
    → (is_safe_outbound_ip (v4 a b c d) ≡ true) ↔ IsPublic (bits a b c d)
is_safe_outbound_ip_iff a b c d oa ob oc od =
    (safe→IsPublic a b c d oa ob oc od, IsPublic→safe a b c d oa ob oc od)

-- The IPv4-mapped IPv6 address ::ffff:a.b.c.d.
abbrev pub mapped : ℕ → ℕ → ℕ → ℕ → IpAddr
mapped a b c d = v6 0 0 0 0 0 0xffff (a * 256 + b) (c * 256 + d)

-- Every IPv4 address, loopback and private ones included, is taken as safe when it is written as
-- an IPv4-mapped IPv6 address, while 127.b.c.d and 10.b.c.d themselves are refused.
pub mapped_is_safe :
    (a b c d : ℕ)
    → (is_safe_outbound_ip (mapped a b c d) ≡ true)
      × (is_safe_outbound_ip (v4 127 b c d) ≡ false)
      × (is_safe_outbound_ip (v4 10 b c d) ≡ false)
unfolding is_safe_outbound_ip
mapped_is_safe a b c d = (refl, refl, refl)
