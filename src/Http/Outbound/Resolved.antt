-- ===== src/Http/Outbound/Resolved.antt =====
-- What the resolver's answer becomes: the addresses that a client is pinned to.
use zyguor_agent_execution_g.Base.{
  String, ◌≡◌, ◌≢◌, refl, ◌↔◌, ◌⊎◌, inl, inr, true, List, [], ◌∷◌, ◌++◌, ok, arith, Bool-cases,
  Result-cases, if◌then◌else◌,
}
use zyguor_agent_execution_g.Http.Outbound.{
  IpAddr, v4, v6, SocketAddr, is_safe_outbound_ip, ip_beq, addr_beq, contains, collect_addresses,
  require_addresses, resolve_safe_outbound_addresses,
}

ip_beq_iff : (x y : IpAddr) → (ip_beq x y ≡ true) ↔ (x ≡ y)
unfolding ip_beq
ip_beq_iff (v4 a b c d) (v4 a' b' c' d') = (λ h. ground arith, λ h. ground arith)
ip_beq_iff (v6 s₀ s₁ s₂ s₃ s₄ s₅ s₆ s₇) (v6 t₀ t₁ t₂ t₃ t₄ t₅ t₆ t₇) =
    (λ h. ground arith, λ h. ground arith)
ip_beq_iff (v4 a b c d) (v6 t₀ t₁ t₂ t₃ t₄ t₅ t₆ t₇) = (λ h. cc, λ h. cc)
ip_beq_iff (v6 s₀ s₁ s₂ s₃ s₄ s₅ s₆ s₇) (v4 a b c d) = (λ h. cc, λ h. cc)

addr_beq_iff : (x y : SocketAddr) → (addr_beq x y ≡ true) ↔ (x ≡ y)
unfolding addr_beq
addr_beq_iff x y =
    (λ h. ground (arith, ip_beq_iff x.ip y.ip), λ h. ground (arith, ip_beq_iff x.ip y.ip))

-- An address stands in a list.
abbrev pub In : SocketAddr → List SocketAddr → Type 0
In x [] = ⊥
In x (y ∷ rest) = (y ≡ x) ⊎ In x rest

abbrev pub AllSafe : List SocketAddr → Type 0
AllSafe [] = Unit
AllSafe (x ∷ rest) = (is_safe_outbound_ip x.ip ≡ true) × AllSafe rest

abbrev pub Distinct : List SocketAddr → Type 0
Distinct [] = Unit
Distinct (x ∷ rest) = (¬ In x rest) × Distinct rest

contains_iff : (xs : List SocketAddr) (x : SocketAddr) → (contains xs x ≡ true) ↔ In x xs
unfolding contains
contains_iff [] x = (λ h. cc, λ h. absurd h)
contains_iff (y ∷ rest) x = (
  λ h. ground (arith, addr_beq_iff y x, (contains_iff rest x).0),
  λ h. ground (arith, addr_beq_iff y x, (contains_iff rest x).1),
)

In-push : (x y : SocketAddr) (xs : List SocketAddr) → In x (xs ++ y ∷ []) ↔ (In x xs ⊎ (y ≡ x))
In-push x y [] = (λ h. ground arith, λ h. ground arith)
In-push x y (z ∷ xs) =
    (λ h. ground (arith, (In-push x y xs).0), λ h. ground (arith, (In-push x y xs).1))

Distinct-push :
    (y : SocketAddr) (xs : List SocketAddr) → (¬ In y xs) → Distinct xs → Distinct (xs ++ y ∷ [])
Distinct-push y [] h d = (λ e. e, tt)
Distinct-push y (z ∷ xs) h d =
    (λ i. ground (arith, (In-push z y xs).0 i), Distinct-push y xs (λ i. h (inr i)) d.1)

-- The next list of addresses in the loop.
abbrev push : List SocketAddr → SocketAddr → List SocketAddr
push addresses x = if contains addresses x then addresses else addresses ++ x ∷ []

push-Distinct : (xs : List SocketAddr) (x : SocketAddr) → Distinct xs → Distinct (push xs x)
push-Distinct xs x d = elim (Bool-cases (contains xs x)) [
  | inl old ↦ rw old d
  | inr new ↦ rw new (Distinct-push x xs (λ i. ground (arith, (contains_iff xs x).1 i)) d)
]

In-push_if : (xs : List SocketAddr) (x y : SocketAddr) → In x (push xs y) ↔ (In x xs ⊎ (y ≡ x))
In-push_if xs x y = elim (Bool-cases (contains xs y)) [
  | inl old ↦
      rw old (λ i. inl i, λ i. elim i [ inl j ↦ j | inr e ↦ rw (← e) ((contains_iff xs y).0 old) ])
  | inr new ↦ rw new (In-push x y xs)
]

module _ (display : IpAddr → String) where
  -- The outcome of the loop.
  record IsCollected (acc resolved out : List SocketAddr) : Type 0 where
    safe : AllSafe resolved
    distinct : Distinct out
    same : (x : SocketAddr) → In x out ↔ (In x acc ⊎ In x resolved)

  collect-IsCollected :
      (acc resolved out : List SocketAddr)
      → Distinct acc
      → collect_addresses display acc resolved ≡ ok out
      → IsCollected acc resolved out
  unfolding collect_addresses
  collect-IsCollected acc [] out d h =
      let e : acc ≡ out = ground arith in
      record {
        safe = tt;
        distinct = rw (← e) d;
        same = λ x. rw (← e) (λ i. inl i, λ i. ground arith);
      }
  collect-IsCollected acc (y ∷ resolved) out d h = elim (Bool-cases (is_safe_outbound_ip y.ip)) [
    | inr bad ↦ ground (arith, bad)
    | inl good ↦
        let rest =
          collect-IsCollected (push acc y) resolved out (push-Distinct acc y d)
            (ground (arith, good)) in
        record {
          safe = (good, rest.safe);
          distinct = rest.distinct;
          same = λ x. (
            λ i. ground (arith, (rest.same x).0 i, (In-push_if acc x y).0),
            λ i. ground (arith, (rest.same x).1, (In-push_if acc x y).1),
          );
        }
  ]

  collect_total :
      (acc resolved : List SocketAddr)
      → AllSafe resolved
      → (out : List SocketAddr) × (collect_addresses display acc resolved ≡ ok out)
  unfolding collect_addresses
  collect_total acc [] s = (acc, refl)
  collect_total acc (y ∷ resolved) s = rw s.0 (collect_total (push acc y) resolved s.1)

  require_same :
      (xs out : List SocketAddr) → require_addresses display xs ≡ ok out → (xs ≡ out) × (out ≢ [])
  unfolding require_addresses
  require_same [] out h = cc
  require_same (x ∷ xs) out h = let e : x ∷ xs ≡ out = ground arith in (e, rw (← e) (λ k. cc k))

  -- The addresses that are returned are those of the answer, each once, and all of them are safe;
  -- there is at least one.
  pub resolve_sound :
      (answer out : List SocketAddr)
      → resolve_safe_outbound_addresses display (ok answer) ≡ ok out
      → AllSafe answer × Distinct out × (out ≢ []) × ((x : SocketAddr) → In x out ↔ In x answer)
  unfolding resolve_safe_outbound_addresses
  resolve_sound answer out h = elim (Result-cases (collect_addresses display [] answer)) [
    | inr (e, p) ↦ ground (arith, p)
    | inl (xs, p) ↦
        let (same, some_left) = require_same xs out (ground (arith, p)) in
        let c : IsCollected [] answer out = collect-IsCollected [] answer out tt (rw (← same) p) in
        (
          c.safe,
          c.distinct,
          some_left,
          λ x. (λ i. ground (arith, (c.same x).0 i), λ i. (c.same x).1 (inr i)),
        )
  ]

  require_nonempty :
      (xs : List SocketAddr) (x : SocketAddr)
      → In x xs
      → (out : List SocketAddr) × (require_addresses display xs ≡ ok out)
  unfolding require_addresses
  require_nonempty [] x i = absurd i
  require_nonempty (y ∷ xs) x i = (y ∷ xs, refl)

  -- An answer that is not empty and whose addresses are all safe is accepted.
  pub resolve_total :
      (x : SocketAddr) (answer : List SocketAddr)
      → AllSafe (x ∷ answer)
      → (out : List SocketAddr) × (resolve_safe_outbound_addresses display (ok (x ∷ answer))
          ≡ ok out)
  unfolding resolve_safe_outbound_addresses
  resolve_total x answer s =
      let (xs, p) = collect_total [] (x ∷ answer) s in
      let c : IsCollected [] (x ∷ answer) xs = collect-IsCollected [] (x ∷ answer) xs tt p in
      rw p (require_nonempty xs x ((c.same x).1 (inr (inl refl))))
