-- ===== src/Validation.antt =====
-- app/ssrf.py and the validators of app/models.py.
-- `urllib.parse.urlsplit`, `socket.getaddrinfo` and `ipaddress.ip_address` are outside: a `Network`
-- says what they answer.
pub mod Accepted
pub mod Targets
mod Examples
use monitoring_service.Prelude.{
  ℕ, ◌≡◌, ◌⊎◌, inl, inr, refl, Bool, true, false, not, ◌&&◌, ◌||◌, Option, none, some, List, [],
  ◌∷◌, leb, ltb, length, if◌then◌else◌,
}
use monitoring_service.Prelude.Text.{Text, text, text_eq}
use monitoring_service.Prelude.Text.Str.{any_space, strip, partition, contains}
use monitoring_service.Model.{AlertChannel, email, webhook}

-- What the program asks of an `IPv4Address` or `IPv6Address`.
pub record IpAddress : Type 0 where
  pub is_private : Bool
  pub is_loopback : Bool
  pub is_link_local : Bool
  pub is_reserved : Bool
  pub is_multicast : Bool
  pub is_unspecified : Bool

-- The parts of `urlsplit` that are read; an absent hostname is None.
pub record UrlParts : Type 0 where
  pub scheme : Text
  pub hostname : Option Text

-- `getaddrinfo` raises `gaierror`, raises `UnicodeError` (a `ValueError`) at a name that it cannot
-- encode, or returns entries whose addresses are texts.
pub data Lookup : Type 0 where
  gaierror unicode_error : Lookup
  addresses : List Text → Lookup

-- `none` is a `ValueError`.
pub record Network : Type 0 where
  pub urlsplit : Text → Option UrlParts
  pub getaddrinfo : Text → Lookup
  pub ip_address : Text → Option IpAddress

-- A validator returns a value or raises `ValueError`.
pub data Validated (A : Type 0) : Type 0 where
  valid : A → Validated A
  value_error : Validated A

infixl 5 ◌>>=◌
abbrev pub ◌>>=◌ : {A B : Type 0} → Validated A → (A → Validated B) → Validated B
valid a >>= f = f a
value_error >>= f = value_error

pub Validated-cases : {A : Type 0} (x : Validated A) → (x ≡ value_error) ⊎ ((a : A) × (x ≡ valid a))
Validated-cases (valid a) = inr (a, refl)
Validated-cases value_error = inl refl

unfoldable pub is_blocked_ip : IpAddress → Bool
is_blocked_ip ip =
    ip.is_private || ip.is_loopback || ip.is_link_local || ip.is_reserved || ip.is_multicast
    || ip.is_unspecified

-- `not parts.hostname`: None or the empty text.
abbrev pub host_of : Option Text → Text
host_of none = []
host_of (some h) = h

abbrev pub is_empty : Text → Bool
is_empty [] = true
is_empty (c ∷ s) = false

-- The condition of the first `if`.
unfoldable pub is_malformed : UrlParts → Text → Bool
is_malformed parts value =
    not (text_eq parts.scheme (text "http") || text_eq parts.scheme (text "https"))
    || is_empty (host_of parts.hostname)
    || any_space value
    || ltb 2048 (length value)

unfoldable pub check_email : Text → Validated Text
check_email target =
    let (local, domain) = partition b'@' target in
    if is_empty local || not (contains b'.' domain) || any_space target
    then value_error
    else valid target

module _ (network : Network) where
  open network use {urlsplit, getaddrinfo, ip_address}

  -- The `for info in infos` loop; an address that does not parse is passed over.
  unfoldable pub any_blocked : List Text → Bool
  any_blocked [] = false
  any_blocked (info ∷ infos) =
      let rest = any_blocked infos in
      elim (ip_address info) [ none ↦ rest | some ip ↦ if is_blocked_ip ip then true else rest ]

  unfoldable pub resolves_to_blocked_address : Text → Validated Bool
  resolves_to_blocked_address hostname = elim (getaddrinfo hostname) [
    | gaierror ↦ valid false
    | unicode_error ↦ value_error
    | addresses infos ↦ valid (any_blocked infos)
  ]

  unfoldable pub check_stripped : Text → Validated Text
  check_stripped value = elim (urlsplit value) [
    | none ↦ value_error
    | some parts ↦ if is_malformed parts value then value_error else (do
      blocked ← resolves_to_blocked_address (host_of parts.hostname)
      if blocked then value_error else valid value)
  ]

  unfoldable pub validate_check_url : Text → Validated Text
  validate_check_url value = check_stripped (strip value)

  -- `AlertConfigCreate.check_target_matches_channel`: the target that it leaves.
  unfoldable pub check_target_matches_channel : AlertChannel → Text → Validated Text
  check_target_matches_channel email target = check_email (strip target)
  check_target_matches_channel webhook target = validate_check_url (strip target)

-- Field(ge=10, le=86400)
unfoldable pub interval_in_range : ℕ → Bool
interval_in_range interval = leb 10 interval && leb interval 86_400
