-- ===== src/Config/Hosts.antt =====
-- The allow-list that the loop over the hosts of src/config.rs accepts.
use zyguor_agent_execution_g.Base.{
  String, ◌≡◌, refl, sym, ◌≢◌, ◌↔◌, inl, inr, false, List, [], ◌∷◌, ok, err, arith, string_eq,
  Result-cases, Bool-cases,
}
use zyguor_agent_execution_g.Base.Text.{trim, is_empty, to_ascii_lowercase, eq_ignore_ascii_case}
use zyguor_agent_execution_g.Http.Url.{Host, domain, ipv4, ipv6, UrlLibrary}
use zyguor_agent_execution_g.Config.Validate.{
  contains, require_domain, normalize_host, validate_hosts,
}

abbrev pub NotIn : String → List String → Type 0
NotIn name [] = Unit
NotIn name (other ∷ rest) = (other ≢ name) × NotIn name rest

abbrev pub Distinct : List String → Type 0
Distinct [] = Unit
Distinct (name ∷ rest) = NotIn name rest × Distinct rest

-- No name of the second list is in the first.
abbrev Apart : List String → List String → Type 0
Apart seen [] = Unit
Apart seen (name ∷ rest) = NotIn name seen × Apart seen rest

contains-NotIn :
    (seen : List String) (name : String) → (contains seen name ≡ false) ↔ NotIn name seen
unfolding contains
contains-NotIn [] name = (λ _. tt, λ _. refl)
contains-NotIn (other ∷ rest) name = (
  λ h. ground (arith, string_eq.equals_iff other name, (contains-NotIn rest name).0),
  λ h. ground (arith, string_eq.equals_iff other name, (contains-NotIn rest name).1),
)

Apart-cons :
    (seen names : List String) (name : String)
    → NotIn name names
    → Apart seen names
    → Apart (name ∷ seen) names
Apart-cons seen [] name h a = tt
Apart-cons seen (n ∷ names) name h a = ((λ e. h.0 (sym e), a.0), Apart-cons seen names name h.1 a.1)

Apart-tail :
    (seen names : List String) (name : String) → Apart (name ∷ seen) names → Apart seen names
Apart-tail seen [] name a = tt
Apart-tail seen (n ∷ names) name a = (a.0.1, Apart-tail seen names name a.1)

Apart-NotIn :
    (seen names : List String) (name : String) → Apart (name ∷ seen) names → NotIn name names
Apart-NotIn seen [] name a = tt
Apart-NotIn seen (n ∷ names) name a = (λ e. a.0.0 (sym e), Apart-NotIn seen names name a.1)

Apart-nil : (names : List String) → Apart [] names
Apart-nil [] = tt
Apart-nil (n ∷ names) = (tt, Apart-nil names)

module _ (url : UrlLibrary) where
  -- The entry is the text of a domain that is not localhost, and `name` is it in lower case.
  pub record Names (entry name : String) : Type 0 where
    pub parsed_as : String
    pub written : is_empty (trim entry) ≡ false
    pub parses : url.host_parse (trim entry) ≡ ok (domain parsed_as)
    pub not_local : eq_ignore_ascii_case parsed_as "localhost" ≡ false
    pub lower : name ≡ to_ascii_lowercase parsed_as

  abbrev pub NamesAll : List String → List String → Type 0
  NamesAll [] [] = Unit
  NamesAll (entry ∷ entries) (name ∷ names) = Names entry name × NamesAll entries names
  NamesAll _ _ = ⊥

  host-Names :
      (entry name : String) (host : Host)
      → url.host_parse (trim entry) ≡ ok host
      → normalize_host url entry ≡ ok name
      → Names entry name
  unfolding normalize_host require_domain
  host-Names entry name (domain d) p h = record {
    parsed_as = d;
    written = ground (arith, p);
    parses = p;
    not_local = ground (arith, p);
    lower = ground (arith, p);
  }
  host-Names entry name ipv4 p h = ground (arith, p)
  host-Names entry name ipv6 p h = ground (arith, p)

  error-Names :
      (entry name error : String)
      → url.host_parse (trim entry) ≡ err error
      → normalize_host url entry ≡ ok name
      → Names entry name
  unfolding normalize_host
  error-Names entry name error p h = ground (arith, p)

  pub normalize_host_iff :
      (entry name : String) → (normalize_host url entry ≡ ok name) ↔ Names entry name
  unfolding normalize_host require_domain
  normalize_host_iff entry name = (
    λ h. elim (Result-cases (url.host_parse (trim entry))) [
      | inl (host, p) ↦ host-Names entry name host p h
      | inr (error, p) ↦ error-Names entry name error p h
    ],
    λ h. ground (arith, h.parses),
  )

  -- The names of the hosts that are left, which none of the names seen repeats.
  abbrev Rest : List String → List String → Type 0
  Rest seen hosts = (names : List String) × NamesAll hosts names × Distinct names × Apart seen names

  Rest-cons :
      (seen hosts : List String) (host name : String)
      → Names host name
      → NotIn name seen
      → Rest (name ∷ seen) hosts
      → Rest seen (host ∷ hosts)
  Rest-cons seen hosts host name n fresh (names, all, distinct, apart) = (
    name ∷ names,
    (n, all),
    (Apart-NotIn seen names name apart, distinct),
    (fresh, Apart-tail seen names name apart),
  )

  validate_hosts-Rest :
      (seen hosts : List String) → validate_hosts url seen hosts ≡ ok tt → Rest seen hosts
  unfolding validate_hosts
  validate_hosts-Rest seen [] h = ([], tt, tt, tt)
  validate_hosts-Rest seen (host ∷ hosts) h = elim (Result-cases (normalize_host url host)) [
    | inl (name, p) ↦ elim (Bool-cases (contains seen name)) [
      | inl twice ↦ ground (arith, p)
      | inr fresh ↦
          Rest-cons seen hosts host name ((normalize_host_iff host name).0 p)
            ((contains-NotIn seen name).0 fresh)
            (validate_hosts-Rest (name ∷ seen) hosts (ground (arith, p)))
    ]
    | inr (error, p) ↦ ground (arith, p)
  ]

  Rest-validate_hosts :
      (seen hosts names : List String)
      → NamesAll hosts names
      → Distinct names
      → Apart seen names
      → validate_hosts url seen hosts ≡ ok tt
  unfolding validate_hosts
  Rest-validate_hosts seen [] [] all distinct apart = refl
  Rest-validate_hosts seen [] (name ∷ names) all distinct apart = absurd all
  Rest-validate_hosts seen (host ∷ hosts) [] all distinct apart = absurd all
  Rest-validate_hosts seen (host ∷ hosts) (name ∷ names) all distinct apart =
      rw ((normalize_host_iff host name).1 all.0, (contains-NotIn seen name).1 apart.0)
        (Rest-validate_hosts (name ∷ seen) hosts names all.1 distinct.1
          (Apart-cons seen names name distinct.0 apart.1))

  -- Every entry names a domain, and no two entries name the same one.
  abbrev pub IsAllowList : List String → Type 0
  IsAllowList hosts = (names : List String) × NamesAll hosts names × Distinct names

  pub validate_hosts_iff :
      (hosts : List String) → (validate_hosts url [] hosts ≡ ok tt) ↔ IsAllowList hosts
  validate_hosts_iff hosts = (
    λ h. let (names, all, distinct, _) = validate_hosts-Rest [] hosts h in (names, all, distinct),
    λ h. Rest-validate_hosts [] hosts h.0 h.1 h.2 (Apart-nil h.0),
  )
