-- ===== src/Webhooks/Allowed.antt =====
-- The URLs that the policy for webhooks allows, said without the order of its checks.
use hype_coin_predictive_eng.Prelude.{
  ℕ, ◌≡◌, ◌↔◌, refl, String, true, false, Option, none, some, List, [], ◌∷◌, All, arith,
}
use hype_coin_predictive_eng.Webhooks.Policy.{
  Library, Settings, Parsed, Resolution, addresses, gaierror, raised, valid, is_empty, is_web,
  host_of, carries_credentials, is_exempt, port_or_default, check_addresses, check_resolution,
  check_host, check_parsed, validate_webhook_url,
}

module _ (l : Library) (s : Settings) where
  -- Every address that a host resolves to is public.
  abbrev pub IsPublic : Resolution → Type 0
  IsPublic (addresses ips) = All (λ ip. l.is_global ip ≡ true) ips
  IsPublic gaierror = ⊥
  IsPublic raised = ⊥

  abbrev pub IsReachable : ℕ → Parsed → Option (Option ℕ) → Type 0
  IsReachable now p none = ⊥
  IsReachable now p (some port) =
      is_exempt l s p ≡ false
      → IsPublic (l.getaddrinfo now (host_of l s p) (port_or_default l s p port))

  abbrev pub IsTarget : ℕ → Option Parsed → Type 0
  IsTarget now none = ⊥
  IsTarget now (some p) =
      (is_web l s p ≡ true)
      × (is_empty (host_of l s p) ≡ false)
      × (carries_credentials l s p ≡ false)
      × IsReachable now p p.port

  -- The URL is http or https, has a host and a proper port and no credentials, and at that time all
  -- addresses of a host that is not exempt are public.
  abbrev pub IsAllowed : ℕ → String → Type 0
  IsAllowed now url = IsTarget now (l.urlparse (l.strip url))

  check_addresses_iff :
      (raw : String) (ips : List String)
      → (check_addresses l s raw ips ≡ valid raw) ↔ All (λ ip. l.is_global ip ≡ true) ips
  unfolding check_addresses
  check_addresses_iff raw [] = ground arith
  check_addresses_iff raw (ip ∷ ips) = ground (arith, check_addresses_iff raw ips)

  check_resolution_iff :
      (raw : String) (r : Resolution) → (check_resolution l s raw r ≡ valid raw) ↔ IsPublic r
  unfolding check_resolution
  check_resolution_iff raw (addresses ips) = check_addresses_iff raw ips
  check_resolution_iff raw gaierror = ground arith
  check_resolution_iff raw raised = ground arith

  check_host_iff :
      (now : ℕ) (raw : String) (p : Parsed) (port : Option (Option ℕ))
      → (check_host l s now raw p port ≡ valid raw) ↔ IsReachable now p port
  unfolding check_host
  check_host_iff now raw p none = ground arith
  check_host_iff now raw p (some port) = ground (
    arith,
    check_resolution_iff raw (l.getaddrinfo now (host_of l s p) (port_or_default l s p port)),
  )

  check_parsed_iff :
      (now : ℕ) (raw : String) (o : Option Parsed)
      → (check_parsed l s now raw o ≡ valid raw) ↔ IsTarget now o
  unfolding check_parsed
  check_parsed_iff now raw none = ground arith
  check_parsed_iff now raw (some p) = ground (arith, check_host_iff now raw p p.port)

  -- A valid answer is the URL that was asked for.
  check_addresses_same :
      (raw url : String) (ips : List String)
      → check_addresses l s raw ips ≡ valid url
      → check_addresses l s raw ips ≡ valid raw
  unfolding check_addresses
  check_addresses_same raw url [] h = refl
  check_addresses_same raw url (ip ∷ ips) h = ground (arith, check_addresses_same raw url ips)

  check_resolution_same :
      (raw url : String) (r : Resolution)
      → check_resolution l s raw r ≡ valid url
      → check_resolution l s raw r ≡ valid raw
  unfolding check_resolution
  check_resolution_same raw url (addresses ips) h = check_addresses_same raw url ips h
  check_resolution_same raw url gaierror h = ground arith
  check_resolution_same raw url raised h = ground arith

  check_host_same :
      (now : ℕ) (raw url : String) (p : Parsed) (port : Option (Option ℕ))
      → check_host l s now raw p port ≡ valid url
      → check_host l s now raw p port ≡ valid raw
  unfolding check_host
  check_host_same now raw url p none h = ground arith
  check_host_same now raw url p (some port) h = ground (
    arith,
    check_resolution_same raw url (l.getaddrinfo now (host_of l s p) (port_or_default l s p port)),
  )

  check_parsed_same :
      (now : ℕ) (raw url : String) (o : Option Parsed)
      → check_parsed l s now raw o ≡ valid url
      → check_parsed l s now raw o ≡ valid raw
  unfolding check_parsed
  check_parsed_same now raw url none h = ground arith
  check_parsed_same now raw url (some p) h = ground (arith, check_host_same now raw url p p.port)

  pub validate_webhook_url_exact :
      (now : ℕ) (url : String)
      → (validate_webhook_url l s now url ≡ valid (l.strip url)) ↔ IsAllowed now url
  unfolding validate_webhook_url
  validate_webhook_url_exact now url = check_parsed_iff now (l.strip url) (l.urlparse (l.strip url))

  pub validate_webhook_url-IsAllowed :
      (now : ℕ) (url answer : String)
      → validate_webhook_url l s now url ≡ valid answer
      → IsAllowed now url
  unfolding validate_webhook_url
  validate_webhook_url-IsAllowed now url answer h =
      (validate_webhook_url_exact now url).0
        (check_parsed_same now (l.strip url) answer (l.urlparse (l.strip url)) h)
