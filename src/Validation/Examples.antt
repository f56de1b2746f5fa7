-- ===== src/Validation/Examples.antt =====
-- A small network, and the theorems about validation at it.
use monitoring_service.Prelude.{◌≡◌, ◌↔◌, refl, true, false, some, [], ◌∷◌, if◌then◌else◌}
use monitoring_service.Prelude.Text.{text, text_eq}
use monitoring_service.Prelude.Text.Str.{strip, partition, is_space}
use monitoring_service.Model.{email}
use monitoring_service.Validation.{
  IpAddress, addresses, Network, valid, value_error, validate_check_url, check_stripped,
  is_malformed, resolves_to_blocked_address, any_blocked, is_blocked_ip,
  check_target_matches_channel, check_email,
}
use monitoring_service.Validation.Accepted.{IsFetchable, validate_check_url_iff}

abbrev public_ip : IpAddress
public_ip = record {
  is_private = false;
  is_loopback = false;
  is_link_local = false;
  is_reserved = false;
  is_multicast = false;
  is_unspecified = false;
}

-- one host has a public address, any other the metadata address
abbrev network : Network
network = record {
  urlsplit = λ url. some (record {
    scheme = text "https";
    hostname = some (if text_eq url (text "https://a.org") then text "a.org" else text "metadata");
  });
  getaddrinfo = λ host.
      addresses
        ((if text_eq host (text "a.org") then text "1.2.3.4" else text "169.254.169.254") ∷ []);
  ip_address = λ address. some (
      if text_eq address (text "1.2.3.4")
      then public_ip
      else record public_ip { is_link_local = true });
}

accepts : validate_check_url network (text " https://a.org") ≡ valid (text "https://a.org")
unfolding validate_check_url check_stripped is_malformed resolves_to_blocked_address any_blocked
    is_blocked_ip strip is_space
accepts = refl

rejects : validate_check_url network (text "https://internal") ≡ value_error
unfolding validate_check_url check_stripped is_malformed resolves_to_blocked_address any_blocked
    is_blocked_ip strip is_space
rejects = refl

validate_check_url_iff_example :
    (validate_check_url network (text " https://a.org") ≡ valid (text "https://a.org")) ↔ (
      (text "https://a.org" ≡ strip (text " https://a.org"))
      × IsFetchable network (text "https://a.org"))
validate_check_url_iff_example =
    validate_check_url_iff network (text " https://a.org") (text "https://a.org")

accepts_email :
    check_target_matches_channel network email (text "me@a.org ") ≡ valid (text "me@a.org")
unfolding check_target_matches_channel check_email partition strip is_space
accepts_email = refl
