-- ===== src/Webhooks/Policy.antt =====
-- The policy for the URLs of webhooks: `validate_webhook_url`. What Python's library does (urllib,
-- text methods, address ranges, the resolver) is a parameter; the resolver answers by the time it is
-- asked.
use hype_coin_predictive_eng.Prelude.{
  ℕ, zero, suc, String, Bool, not, ◌||◌, Option, none, some, List, [], ◌∷◌, if◌then◌else◌, filter,
  map, mem, str_eq,
}

abbrev pub is_empty : String → Bool
is_empty s = str_eq s ""

-- What `urlparse` finds: `username` and `password` are empty if there are none, and `port` is none if
-- reading it raises, some none if the URL has none.
pub record Parsed : Type 0 where
  pub scheme : String
  pub hostname : String
  pub username : String
  pub password : String
  pub netloc : String
  pub port : Option (Option ℕ)

-- The answer of `socket.getaddrinfo`: addresses, its documented error, or any other exception.
pub data Resolution : Type 0 where
  addresses : List String → Resolution
  gaierror : Resolution
  raised : Resolution

pub record Library : Type 0 where
  pub urlparse : String → Option Parsed
  pub strip : String → String
  pub lower : String → String
  pub split : String → List String
  -- `a in b` of texts
  pub contains : String → String → Bool
  pub getaddrinfo : ℕ → String → ℕ → Resolution
  pub is_global : String → Bool

pub record Settings : Type 0 where
  pub webhook_url_allowlist_csv : String
  pub webhook_allow_private_hosts : Bool

pub data WebhookUrlError : Type 0 where
  unparseable bad_scheme no_host has_credentials invalid_port unresolved : WebhookUrlError
  non_public : String → WebhookUrlError

-- How `validate_webhook_url` ends; `escaped` is an exception that is not a WebhookURLError.
pub data Validation : Type 0 where
  valid : String → Validation
  invalid : WebhookUrlError → Validation
  escaped : Validation

module _ (l : Library) (s : Settings) where
  abbrev pub webhook_allowlist : List String
  webhook_allowlist =
      map (λ h. l.lower (l.strip h))
        (filter (λ h. not (is_empty (l.strip h))) (l.split (l.strip s.webhook_url_allowlist_csv)))

  abbrev pub scheme_of : Parsed → String
  scheme_of p = l.lower p.scheme

  abbrev pub host_of : Parsed → String
  host_of p = l.lower (l.strip p.hostname)

  abbrev pub is_web : Parsed → Bool
  is_web p = str_eq (scheme_of p) "http" || str_eq (scheme_of p) "https"

  abbrev pub carries_credentials : Parsed → Bool
  carries_credentials p =
      not (is_empty p.username) || (not (is_empty p.password) || l.contains "@" p.netloc)

  -- The hosts whose addresses are not asked.
  abbrev pub is_exempt : Parsed → Bool
  is_exempt p = mem (host_of p) webhook_allowlist || s.webhook_allow_private_hosts

  -- `port or default_port`: a port 0 counts as none.
  abbrev pub port_or_default : Parsed → Option ℕ → ℕ
  port_or_default p none = if str_eq (scheme_of p) "https" then 443 else 80
  port_or_default p (some zero) = if str_eq (scheme_of p) "https" then 443 else 80
  port_or_default p (some (suc n)) = suc n

  -- The loop over the addresses.
  unfoldable pub check_addresses : String → List String → Validation
  check_addresses raw [] = valid raw
  check_addresses raw (ip ∷ ips) =
      let rest = check_addresses raw ips in if l.is_global ip then rest else invalid (non_public ip)

  unfoldable pub check_resolution : String → Resolution → Validation
  unfolding check_addresses
  check_resolution raw (addresses ips) = check_addresses raw ips
  check_resolution raw gaierror = invalid unresolved
  check_resolution raw raised = escaped

  -- What follows the port.
  unfoldable pub check_host : ℕ → String → Parsed → Option (Option ℕ) → Validation
  unfolding check_resolution
  check_host now raw p none = invalid invalid_port
  check_host now raw p (some port) =
      if is_exempt p
      then valid raw
      else check_resolution raw (l.getaddrinfo now (host_of p) (port_or_default p port))

  unfoldable pub check_parsed : ℕ → String → Option Parsed → Validation
  unfolding check_host
  check_parsed now raw none = invalid unparseable
  check_parsed now raw (some p) =
      if not (is_web p)
      then invalid bad_scheme
      else if is_empty (host_of p)
      then invalid no_host
      else if carries_credentials p
      then invalid has_credentials
      else check_host now raw p p.port

  unfoldable pub validate_webhook_url : ℕ → String → Validation
  unfolding check_parsed
  validate_webhook_url now url = let raw = l.strip url in check_parsed now raw (l.urlparse raw)
