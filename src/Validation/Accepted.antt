-- ===== src/Validation/Accepted.antt =====
-- Which URLs `validate_check_url` accepts.
use monitoring_service.Prelude.{
  ◌≤◌, ◌≡◌, ◌≢◌, ◌⊎◌, ◌↔◌, inl, inr, refl, sym, ap, false, not, ◌||◌, Option, none, some, List, [],
  ◌∷◌, arith, length, All, Bool-cases, Option-cases,
}
use monitoring_service.Prelude.Text.{Text, text, text_eq, text_eq→eq, text_eq_refl}
use monitoring_service.Prelude.Text.Str.{any_space, strip, strip-no_space}
use monitoring_service.Validation.{
  IpAddress, UrlParts, Lookup, gaierror, unicode_error, addresses, Network, valid, value_error,
  is_blocked_ip, any_blocked, resolves_to_blocked_address, host_of, is_empty, is_malformed,
  check_stripped, validate_check_url,
}

-- An address outside every range that the service refuses to fetch.
pub record IsPublic (ip : IpAddress) : Type 0 where
  pub not_private : ip.is_private ≡ false
  pub not_loopback : ip.is_loopback ≡ false
  pub not_link_local : ip.is_link_local ≡ false
  pub not_reserved : ip.is_reserved ≡ false
  pub not_multicast : ip.is_multicast ≡ false
  pub not_unspecified : ip.is_unspecified ≡ false

pub is_blocked_ip-false : (ip : IpAddress) → (is_blocked_ip ip ≡ false) ↔ IsPublic ip
unfolding is_blocked_ip
is_blocked_ip-false ip = (λ h. ground arith, λ h. ground arith)

one_of_two : (s a b : Text) → (not (text_eq s a || text_eq s b) ≡ false) ↔ ((s ≡ a) ⊎ (s ≡ b))
one_of_two s a b = (
  λ h. elim (Bool-cases (text_eq s a)) [
    | inl e ↦ inl (text_eq→eq s a e)
    | inr n ↦ inr (text_eq→eq s b (ground arith))
  ],
  elim [
    | inl e ↦ rw e (rw text_eq_refl refl)
    | inr e ↦ ground (arith, text_eq_refl s, ap (text_eq s) e)
  ],
)

pub is_empty-false : (s : Text) → (is_empty s ≡ false) ↔ (s ≢ [])
is_empty-false [] = (λ h. cc, λ h. absurd (h refl))
is_empty-false (c ∷ s) = (λ h e. cc e, λ h. refl)

some_host : (o : Option Text) → is_empty (host_of o) ≡ false → o ≡ some (host_of o)
some_host none h = cc
some_host (some t) h = refl

is_malformed-false :
    (parts : UrlParts) (value : Text)
    → (is_malformed parts value ≡ false) ↔ (
        ((parts.scheme ≡ text "http") ⊎ (parts.scheme ≡ text "https"))
        × (is_empty (host_of parts.hostname) ≡ false)
        × (any_space value ≡ false)
        × (length value ≤ 2048))
unfolding is_malformed
is_malformed-false parts value = (
  λ h. (
    (one_of_two parts.scheme (text "http") (text "https")).0 (ground arith),
    ground arith,
    ground arith,
    ground arith,
  ),
  λ (scheme, host, space, fits).
      let s = (one_of_two parts.scheme (text "http") (text "https")).1 scheme in ground (arith, s),
)

module _ (network : Network) where
  -- An address text that parses is public.
  abbrev pub AllowsAddress : Option IpAddress → Type 0
  AllowsAddress none = Unit
  AllowsAddress (some ip) = IsPublic ip

  -- A name that does not resolve is allowed, and so is one all of whose addresses are public.
  abbrev pub AllowsLookup : Lookup → Type 0
  AllowsLookup gaierror = Unit
  AllowsLookup unicode_error = ⊥
  AllowsLookup (addresses infos) = All (λ info. AllowsAddress (network.ip_address info)) infos

  -- What an accepted URL is.
  pub record IsFetchable (value : Text) : Type 0 where
    pub parts : UrlParts
    pub host : Text
    pub splits : network.urlsplit value ≡ some parts
    pub has_scheme : (parts.scheme ≡ text "http") ⊎ (parts.scheme ≡ text "https")
    pub has_host : parts.hostname ≡ some host
    pub named : host ≢ []
    pub no_space : any_space value ≡ false
    pub fits : length value ≤ 2048
    pub allowed : AllowsLookup (network.getaddrinfo host)

  any_blocked-false :
      (infos : List Text)
      → (any_blocked network infos ≡ false)
        ↔ All (λ info. AllowsAddress (network.ip_address info)) infos
  unfolding any_blocked
  any_blocked-false [] = (λ h. tt, λ h. refl)
  any_blocked-false (info ∷ infos) = elim (Option-cases (network.ip_address info)) [
    | inl unparsed ↦ (
      λ h. rw unparsed (tt, (any_blocked-false infos).0 (ground arith)),
      λ h. rw (unparsed, any_blocked) ((any_blocked-false infos).1 h.1),
    )
    | inr (ip, e) ↦ (
      λ h.
          rw e
            ((is_blocked_ip-false ip).0 (ground arith), (any_blocked-false infos).0 (ground arith)),
      λ h.
          let p : IsPublic ip = (rw e at h.0) in
          ground (arith, (is_blocked_ip-false ip).1 p, (any_blocked-false infos).1 h.1),
    )
  ]

  resolves-allowed :
      (host : Text)
      → (resolves_to_blocked_address network host ≡ valid false)
        ↔ AllowsLookup (network.getaddrinfo host)
  unfolding resolves_to_blocked_address
  resolves-allowed host = go (network.getaddrinfo host)
    where
      go :
          (l : Lookup)
          → (elim l [
            | gaierror ↦ valid false
            | unicode_error ↦ value_error
            | addresses infos ↦ valid (any_blocked network infos)
          ]
              ≡ valid false)
            ↔ AllowsLookup l
      go gaierror = (λ h. tt, λ h. refl)
      go unicode_error = (λ h. cc, λ h. absurd h)
      go (addresses infos) = (
        λ h. (any_blocked-false infos).0 (ground arith),
        λ h. ap valid ((any_blocked-false infos).1 h),
      )

  check_stripped_sound :
      (value result : Text)
      → check_stripped network value ≡ valid result
      → (result ≡ value) × IsFetchable value
  unfolding check_stripped
  check_stripped_sound value result h = elim (Option-cases (network.urlsplit value)) [
    | inl fails ↦ cc (rw (fails, check_stripped) at h)
    | inr (parts, e) ↦
        let (malformed, allows, same) : (is_malformed parts value ≡ false)
            × (resolves_to_blocked_address network (host_of parts.hostname) ≡ valid false)
            × (result ≡ value) =
          (ground arith, ground arith, ground arith) in
        let (scheme, host, space, fits) = (is_malformed-false parts value).0 malformed in
        (
          same,
          record {
            parts = parts;
            host = host_of parts.hostname;
            splits = e;
            has_scheme = scheme;
            has_host = some_host parts.hostname host;
            named = (is_empty-false (host_of parts.hostname)).0 host;
            no_space = space;
            fits = fits;
            allowed = (resolves-allowed (host_of parts.hostname)).0 allows;
          },
        )
  ]

  check_stripped_complete :
      (value : Text) → IsFetchable value → check_stripped network value ≡ valid value
  unfolding check_stripped
  check_stripped_complete value f =
      let host : is_empty (host_of f.parts.hostname) ≡ false =
        rw f.has_host ((is_empty-false f.host).1 f.named) in
      ground (
        arith,
        f.splits,
        (is_malformed-false f.parts value).1 (f.has_scheme, host, f.no_space, f.fits),
        ap host_of f.has_host,
        (resolves-allowed f.host).1 f.allowed,
      )

  -- A URL is accepted exactly if, without the white space around it, it has an http or https scheme
  -- and a host, holds no white space, is at most 2048 long, and its host does not resolve to an
  -- address that is refused; what is stored is that text.
  pub validate_check_url_iff :
      (value result : Text)
      → (validate_check_url network value ≡ valid result)
        ↔ ((result ≡ strip value) × IsFetchable result)
  unfolding validate_check_url
  validate_check_url_iff value result = (
    λ h. let (same, f) = check_stripped_sound (strip value) result h in (same, rw same f),
    λ (same, f). rw (← same) (check_stripped_complete result f),
  )

  -- A stored URL passes the check again.
  pub validate_check_url_again :
      (value result : Text)
      → validate_check_url network value ≡ valid result
      → validate_check_url network result ≡ valid result
  validate_check_url_again value result h =
      let (same, f) = (validate_check_url_iff value result).0 h in
      (validate_check_url_iff result result).1 (sym (strip-no_space result f.no_space), f)
