-- ===== src/Api/Observed.antt =====
-- app/api.py with app/api_metrics.py: the middlewares around every request, and `/metrics`.
pub mod Counts
mod Examples
use monitoring_service.Prelude.{
  ℕ, ◌-◌, Bool, true, false, ◌&&◌, Option, none, some, List, [], ◌∷◌, ◌++◌, if◌then◌else◌,
}
use monitoring_service.Prelude.Text.{Text, text}
use monitoring_service.Prelude.Text.Decimal.{str}
use monitoring_service.Model.{Database}
use monitoring_service.Store.Status.{count_overdue_endpoints}
use monitoring_service.Api.{Settings}

-- A request: the path of its route, if one matches, its X-Request-ID, the hex of a new uuid, and the
-- readings of `perf_counter`.
pub record HttpRequest : Type 0 where
  pub method : Text
  pub route : Option Text
  pub x_request_id : Option Text
  pub uuid : Text
  pub started : ℕ
  pub finished : ℕ

pub record HttpResponse : Type 0 where
  pub status_code : ℕ
  pub x_request_id : Option Text

-- How `call_next` ends.
pub data Called : Type 0 where
  returned : HttpResponse → Called
  raised : Called

-- The labels of HTTP_REQUESTS.
pub record RequestLabels : Type 0 where
  pub method : Text
  pub route : Text
  pub status : Text

-- What HTTP_REQUESTS was incremented under, what HTTP_REQUEST_DURATION has observed, and the gauge
-- OVERDUE_ENDPOINTS.
pub record Telemetry : Type 0 where
  pub http_requests : List RequestLabels
  pub http_request_duration : List ((Text × Text) × ℕ)
  pub overdue_endpoints : ℕ

-- An empty header is no header.
abbrev pub request_id : HttpRequest → Text
request_id r = elim r.x_request_id [ none ↦ r.uuid | some [] ↦ r.uuid | some (c ∷ id) ↦ c ∷ id ]

unfoldable pub bind_request_context : HttpRequest → Called → Called
bind_request_context r raised = raised
bind_request_context r (returned response) =
    returned (record response { x_request_id = some (request_id r) })

abbrev pub route_label : HttpRequest → Text
route_label r = elim r.route [ none ↦ text "other" | some path ↦ path ]

-- `status`, which stays 500 if the handler raises.
abbrev pub status_label : Called → Text
status_label raised = text "500"
status_label (returned response) = str response.status_code

unfoldable pub record_request_metrics : HttpRequest → Called → Telemetry → Telemetry
record_request_metrics r called t = record t {
  http_requests =
      t.http_requests
      ++ record { method = r.method; route = route_label r; status = status_label called } ∷ [];
  http_request_duration =
      t.http_request_duration ++ ((r.method, route_label r), r.finished - r.started) ∷ [];
}

-- A request and how its route's handler ends, through both middlewares; the one that is added last
-- is the outer one.
unfoldable pub serve : HttpRequest → Called → Telemetry → Telemetry × Called
serve r handled t =
    let called = bind_request_context r handled in (record_request_metrics r called t, called)

unfoldable pub metrics : Settings → ℕ → Database → Telemetry → Telemetry
metrics settings now db t = record t {
  overdue_endpoints = count_overdue_endpoints settings.overdue_grace_seconds now db;
}
