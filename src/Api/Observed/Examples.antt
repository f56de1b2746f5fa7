-- ===== src/Api/Observed/Examples.antt =====
-- Requests of which one raises, and the theorem at them.
use monitoring_service.Prelude.Text.Decimal.{str}
use monitoring_service.Prelude.Tables.{count_where}
use monitoring_service.Prelude.{◌*◌, ◌+◌, ◌≡◌, refl, true, some, none, [], ◌∷◌, List, map}
use monitoring_service.Prelude.Text.{text}
use monitoring_service.Model.{Database, empty, second}
use monitoring_service.Store.Status.{read_endpoint}
use monitoring_service.Store.Status.Overdue.{overdue_reads, is_late, is_silent}
use monitoring_service.Api.{Settings}
use monitoring_service.Api.Observed.{HttpRequest, Called, returned, raised, Telemetry, metrics}
use monitoring_service.Api.Observed.Counts.{serve_all, has_labels, is_request, metrics-serve_all}

abbrev settings : Settings
settings = record { max_endpoints_per_user = 30; overdue_grace_seconds = 30 }

abbrev late : Database
late = record empty {
  endpoints =
      record {
        id = 1;
        user_id = 7;
        url = text "http://a.b/";
        interval_seconds = 60;
        is_active = true;
        next_check_at = 0;
        monitoring_since = 0;
      }
      ∷ [];
}

abbrev ask : HttpRequest
ask = record {
  method = text "GET";
  route = some (text "/endpoints/{endpoint_id}");
  x_request_id = none;
  uuid = text "a1";
  started = 1;
  finished = 4;
}

abbrev requests : List (HttpRequest × Called)
requests =
    (ask, returned (record { status_code = 404; x_request_id = none }))
    ∷ (record ask { route = none }, raised)
    ∷ []

abbrev nothing_yet : Telemetry
nothing_yet = record { http_requests = []; http_request_duration = []; overdue_endpoints = 0 }

metrics-serve_all_example :
    (count_where
        (has_labels (text "GET") (text "other") (str 500))
        (metrics settings (600 * second) late (serve_all requests nothing_yet)).http_requests
      ≡ count_where (has_labels (text "GET") (text "other") (str 500)) []
        + count_where (is_request (text "GET") (text "other") 500) requests)
    × ((metrics settings (600 * second) late (serve_all requests nothing_yet)).overdue_endpoints
        ≡ count_where (is_late 30 (600 * second) late.results) late.endpoints)
    × (overdue_reads (map (read_endpoint 30 (600 * second) late.results) late.endpoints)
        ≡ count_where (is_late 30 (600 * second) late.results) late.endpoints)
metrics-serve_all_example =
    metrics-serve_all settings (600 * second) late requests nothing_yet (text "GET") (text "other")
      500

-- one request raised where no route matched, and one endpoint is late
one_raised : count_where (is_request (text "GET") (text "other") 500) requests ≡ 1
one_raised = refl

one_late : count_where (is_late 30 (600 * second) late.results) late.endpoints ≡ 1
unfolding is_silent
one_late = refl
