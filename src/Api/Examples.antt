-- ===== src/Api/Examples.antt =====
-- A user with an endpoint and an alert, and the theorems about the routes at them.
use monitoring_service.Prelude.{
  ℕ, ◌≤◌, refl, true, false, Option, none, some, List, [], ◌∷◌, arith, All,
}
use monitoring_service.Prelude.Text.{text}
use monitoring_service.Model.{Endpoint, AlertConfig, Database, empty, email}
use monitoring_service.Model.Int.{pos}
use monitoring_service.Validation.{Network, addresses, interval_in_range}
use monitoring_service.Store.{EndpointPatch, unset, set}
use monitoring_service.Store.Alerts.{AlertPatch}
use monitoring_service.Dispatcher.{World, CheckRun}
use monitoring_service.Dispatcher.Probe.{timeout_exception}
use monitoring_service.Analytics.{get_analytics}
use monitoring_service.Api.{Settings, set_endpoint, update_endpoint}
use monitoring_service.Api.Alerts.{update_alert}
use monitoring_service.Api.Isolation.{Hides, reading, other_endpoint-Hides}
use monitoring_service.Api.Limits.{endpoint_count, InRange, set_endpoint_limit, routes-InRange}

-- every host resolves to a public address
abbrev network : Network
network = record {
  urlsplit = λ url. some (record { scheme = text "https"; hostname = some (text "a.org") });
  getaddrinfo = λ host. addresses (text "1.2.3.4" ∷ []);
  ip_address = λ address. some (record {
    is_private = false;
    is_loopback = false;
    is_link_local = false;
    is_reserved = false;
    is_multicast = false;
    is_unspecified = false;
  });
}

abbrev settings : Settings
settings = record { max_endpoints_per_user = 1; overdue_grace_seconds = 60 }

abbrev site : Endpoint
site = record {
  id = 1;
  user_id = 1;
  url = text "https://a.org";
  interval_seconds = 60;
  is_active = true;
  next_check_at = 0;
  monitoring_since = 0;
}

abbrev alert : AlertConfig
alert = record {
  id = 1;
  user_id = 1;
  endpoint_id = 1;
  threshold = pos 3;
  channel = email;
  target = text "a@b.c";
  is_active = true;
}

abbrev stored : Database
stored = record empty {
  users = record { id = 1; email = text "a"; hashed_password = text "h"; created_at = 0 } ∷ [];
  endpoints = site ∷ [];
  configs = alert ∷ [];
}

abbrev bad_target : AlertPatch
bad_target = record {
  threshold = unset;
  channel = unset;
  target = set (text "nobody");
  is_active = unset;
}

abbrev first_of : ℕ → List ℕ → Option ℕ
first_of p [] = none
first_of p (t ∷ ts) = some t

abbrev up_count : ℕ → ℕ → ℕ
up_count up total = up

-- user 2 asks for the endpoint of user 1
other_endpoint-Hides_example :
    Hides 1 stored (reading (get_analytics first_of up_count 1 2 0))
    × Hides 1 stored (update_alert network 1 1 2 bad_target)
other_endpoint-Hides_example = (
  (other_endpoint-Hides first_of up_count network settings 0 0 1 1 2 site stored (tt, tt) refl
      (λ e. omega (arith, e))).7,
  (other_endpoint-Hides first_of up_count network settings 0 0 1 1 2 site stored (tt, tt) refl
        (λ e. omega (arith, e))).5
      bad_target,
)

abbrev world : World
world = record {
  db = stored;
  queued = [];
  published = [];
  checks_counted = [];
  alerts_counted = [];
}

abbrev failed_run : CheckRun
failed_run = record {
  endpoint_id = 1;
  url = text "https://a.org";
  checked_at = 0;
  outcome = timeout_exception;
  now = λ c. 0;
  commits = true;
  publishes = true;
}

set_endpoint_limit_example :
    endpoint_count 1 (set_endpoint network settings 0 0 1 (text "https://a.org") 60 stored).0 ≤ 1
set_endpoint_limit_example =
    set_endpoint_limit network settings 0 0 1 (text "https://a.org") 60 stored 1 (omega arith)

site-InRange : All InRange stored.endpoints
unfolding interval_in_range
site-InRange = (refl, tt)

abbrev faster : EndpointPatch
faster = record { interval_seconds = set 10; is_active = unset; url = unset }

routes-InRange_example :
    All InRange (set_endpoint network settings 0 0 1 (text "https://a.org") 5 stored).0.endpoints
    × All InRange (update_endpoint network settings 0 0 1 1 faster stored).0.endpoints
routes-InRange_example =
    routes-InRange network settings 0 0 1 1 5 (text "https://a.org") faster stored site-InRange
