-- ===== src/Examples/Http.antt =====
-- The theorems on HTTP destinations, addresses and bodies.
use zyguor_agent_execution_g.Base.{
  ℕ, String, ◌≡◌, refl, ◌≢◌, ◌↔◌, true, List, [], ◌∷◌, ok, arith, map_ok,
}
use zyguor_agent_execution_g.Http.Destination.{ValidatedHttpUrl, validate_http_destination}
use zyguor_agent_execution_g.Http.Destination.Approved.{IsApproved, validate_http_destination_iff}
use zyguor_agent_execution_g.Http.Outbound.{
  IpAddr, v4, SocketAddr, is_safe_outbound_ip, addr_beq, contains, collect_addresses,
  require_addresses, resolve_safe_outbound_addresses,
}
use zyguor_agent_execution_g.Http.Outbound.Blocks.{IsPublic, bits, is_safe_outbound_ip_iff}
use zyguor_agent_execution_g.Http.Outbound.Resolved.{
  In, AllSafe, Distinct, resolve_sound, resolve_total,
}
use zyguor_agent_execution_g.Http.Body.{Reader, as_text, read_bounded}
use zyguor_agent_execution_g.Http.Body.Bounded.{clip, input, read_bounded_lem}
use zyguor_agent_execution_g.Examples.{library, url_of}

abbrev approved : ValidatedHttpUrl
approved = record { url = url_of "https://api.example.com/v1" }

validate_http_destination_iff_example :
    (validate_http_destination library "https://api.example.com/v1" ("API.example.com" ∷ [])
      ≡ ok approved)
    ↔ ((library.parse "https://api.example.com/v1" ≡ ok approved.url)
        × IsApproved approved.url ("API.example.com" ∷ []))
validate_http_destination_iff_example =
    validate_http_destination_iff library "https://api.example.com/v1" ("API.example.com" ∷ [])
      approved

is_safe_outbound_ip_iff_example :
    (is_safe_outbound_ip (v4 172 31 0 1) ≡ true) ↔ IsPublic (bits 172 31 0 1)
is_safe_outbound_ip_iff_example =
    is_safe_outbound_ip_iff 172 31 0 1 (omega arith) (omega arith) (omega arith) (omega arith)

abbrev address : SocketAddr
address = record { ip = v4 93 184 216 34; port = 443 }

abbrev show : IpAddr → String
show ip = "an address"

address-AllSafe : AllSafe (address ∷ address ∷ [])
unfolding is_safe_outbound_ip
address-AllSafe = (refl, (refl, tt))

resolve_total_example :
    (out : List SocketAddr) × (resolve_safe_outbound_addresses show (ok (address ∷ address ∷ []))
      ≡ ok out)
resolve_total_example = resolve_total show address (address ∷ []) address-AllSafe

once : resolve_safe_outbound_addresses show (ok (address ∷ address ∷ [])) ≡ ok (address ∷ [])
unfolding resolve_safe_outbound_addresses collect_addresses is_safe_outbound_ip require_addresses
    contains addr_beq
once = refl

resolve_sound_example :
    AllSafe (address ∷ address ∷ [])
    × Distinct (address ∷ [])
    × (address ∷ [] ≢ [])
    × ((x : SocketAddr) → In x (address ∷ []) ↔ In x (address ∷ address ∷ []))
resolve_sound_example = resolve_sound show (address ∷ address ∷ []) (address ∷ []) once

-- Five bytes in two turns, and room for four.
abbrev five_bytes : Reader
five_bytes = ok (104 ∷ 101 ∷ 108 ∷ []) ∷ ok (108 ∷ 111 ∷ []) ∷ ok [] ∷ []

abbrev some_text : List ℕ → String
some_text bytes = "text"

read_bounded_lem_example :
    read_bounded "failed to read: " some_text 4 five_bytes
    ≡ map_ok (λ bytes. as_text some_text (clip 4 bytes)) (input "failed to read: " five_bytes)
read_bounded_lem_example = read_bounded_lem "failed to read: " some_text 4 five_bytes
