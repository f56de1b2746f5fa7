-- ===== src/Api/Ownership/Examples.antt =====
-- A user with an endpoint and an alert configuration, and the theorems at them.
use monitoring_service.Prelude.{◌≡◌, refl, true, none, some, List, [], ◌++◌, All}
use monitoring_service.Prelude.Text.{text}
use monitoring_service.Prelude.Text.Str.{strip, lstrip, rstrip, partition, is_space}
use monitoring_service.Model.{AlertChannel, Endpoint, Database, empty, endpoint_by_id}
use monitoring_service.Model.Int.{pos}
use monitoring_service.Validation.{Network, gaierror, check_target_matches_channel, check_email}
use monitoring_service.Dispatcher.{World, CheckRun, perform_check}
use monitoring_service.Dispatcher.Alerting.{AlertTask}
use monitoring_service.Dispatcher.Probe.{timeout_exception}
use monitoring_service.Store.{add_user, add_endpoint, get_owned_endpoint}
use monitoring_service.Store.Alerts.{add_alert_to_db}
use monitoring_service.Store.Integrity.Reachable.{user_added, endpoint_added}
use monitoring_service.Api.Alerts.{add_alert}
use monitoring_service.Api.Ownership.{Coherent}
use monitoring_service.Api.Ownership.Guarded.{
  Guarded, fresh, stepped, alert_requested, Guarded-Coherent,
}
use monitoring_service.Api.Ownership.Told.{IsFor, perform_check-IsFor}

-- no name has an address
abbrev network : Network
network = record { urlsplit = λ url. none; getaddrinfo = λ host. gaierror; ip_address = λ s. none }

abbrev with_user : Database
with_user = (add_user (text "a@b.c") (text "h") 0 empty).0

abbrev with_endpoint : Database
with_endpoint = (add_endpoint 5 5 1 (text "https://a.org") 60 with_user).0

abbrev with_alert : Database
with_alert = (add_alert network (pos 1) AlertChannel.email (text "a@b.c") true 1 1 with_endpoint).0

with_alert-Guarded : Guarded network with_alert
with_alert-Guarded =
    alert_requested (pos 1) AlertChannel.email (text "a@b.c") true 1 1 with_endpoint (
      stepped (stepped fresh (user_added (text "a@b.c") (text "h") 0 empty) tt)
        (endpoint_added 5 5 1 (text "https://a.org") 60 with_user) tt)

Guarded-Coherent_example : Coherent with_alert
Guarded-Coherent_example = Guarded-Coherent network with_alert-Guarded

abbrev site : Endpoint
site = record {
  id = 1;
  user_id = 1;
  url = text "https://a.org";
  interval_seconds = 60;
  is_active = true;
  next_check_at = 5;
  monitoring_since = 5;
}

abbrev world : World
world = record {
  db = with_alert;
  queued = [];
  published = [];
  checks_counted = [];
  alerts_counted = [];
}

abbrev down_run : CheckRun
down_run = record {
  endpoint_id = 1;
  url = text "https://a.org";
  checked_at = 9;
  outcome = timeout_exception;
  now = λ c. 9;
  commits = true;
  publishes = true;
}

site-found : endpoint_by_id 1 with_alert ≡ some site
unfolding add_alert add_user add_endpoint add_alert_to_db check_target_matches_channel check_email
    strip lstrip rstrip partition is_space get_owned_endpoint
site-found = refl

perform_check-IsFor_example :
    (new : List AlertTask) × ((perform_check down_run world).0.queued ≡ [] ++ new)
    × All (IsFor 1 with_alert.configs) new
perform_check-IsFor_example =
    perform_check-IsFor network down_run site world with_alert-Guarded site-found
