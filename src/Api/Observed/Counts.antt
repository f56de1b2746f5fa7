-- ===== src/Api/Observed/Counts.antt =====
-- app/api.py: the gauge and the counters beside what they count.
use monitoring_service.Prelude.{
  inl, inr, arith, ℕ, ◌+◌, ◌≡◌, ◌∙◌, refl, Bool, ◌==◌, ◌&&◌, Option, none, some, Option-cases, List,
  [], ◌∷◌, map,
}
use monitoring_service.Prelude.Text.{Text, text, text_eq}
use monitoring_service.Prelude.Text.Decimal.{str, digits, text_eq-str}
use monitoring_service.Prelude.Tables.{count_where, count_where-append}
use monitoring_service.Model.{Database}
use monitoring_service.Store.Status.{read_endpoint}
use monitoring_service.Store.Status.Overdue.{overdue_reads, is_late, count_overdue-late}
use monitoring_service.Api.{Settings}
use monitoring_service.Api.Observed.{
  HttpRequest, Called, returned, raised, RequestLabels, Telemetry, route_label, status_label,
  bind_request_context, record_request_metrics, serve, metrics,
}

-- Requests one after the other.
unfoldable pub serve_all : List (HttpRequest × Called) → Telemetry → Telemetry
serve_all [] t = t
serve_all ((r, handled) ∷ rest) t = serve_all rest (serve r handled t).0

-- An increment under these labels.
abbrev pub has_labels : Text → Text → Text → RequestLabels → Bool
has_labels method route status l =
    text_eq l.method method && (text_eq l.route route && text_eq l.status status)

-- The template of the route that a request matches, or "other" where it matches none.
abbrev pub is_on : Text → Option Text → Bool
is_on route (some path) = text_eq path route
is_on route none = text_eq (text "other") route

-- What the client is answered: an exception of the handler is a 500.
abbrev pub is_answered : ℕ → Called → Bool
is_answered code (returned response) = response.status_code == code
is_answered code raised = 500 == code

abbrev pub is_request : Text → Text → ℕ → HttpRequest × Called → Bool
is_request method route code (r, handled) =
    text_eq r.method method && (is_on route r.route && is_answered code handled)

status_500 : text "500" ≡ str 500
unfolding str digits
status_500 = refl

status-is_answered :
    (code : ℕ) (handled : Called)
    → text_eq (status_label handled) (str code) ≡ is_answered code handled
status-is_answered code (returned response) = text_eq-str response.status_code code
status-is_answered code raised = rw status_500 (text_eq-str 500 code)

route-is_on : (route : Text) (r : HttpRequest) → text_eq (route_label r) route ≡ is_on route r.route
route-is_on route r = elim (Option-cases r.route) [ inl e ↦ rw e refl | inr (path, e) ↦ rw e refl ]

-- What one request adds to a counter.
count-serve :
    (method route : Text) (code : ℕ) (r : HttpRequest) (handled : Called) (t : Telemetry)
    → count_where (has_labels method route (str code)) (serve r handled t).0.http_requests
      ≡ count_where (has_labels method route (str code)) t.http_requests
        + count_where (is_request method route code) ((r, handled) ∷ [])
unfolding serve bind_request_context record_request_metrics
count-serve method route code r raised t =
    count_where-append (has_labels method route (str code)) t.http_requests _
    ∙ rw (route-is_on route r, status-is_answered code raised) refl
count-serve method route code r (returned response) t =
    count_where-append (has_labels method route (str code)) t.http_requests _
    ∙ rw (route-is_on route r, status-is_answered code (returned response)) refl

count-serve_all :
    (method route : Text) (code : ℕ) (requests : List (HttpRequest × Called)) (t : Telemetry)
    → count_where (has_labels method route (str code)) (serve_all requests t).http_requests
      ≡ count_where (has_labels method route (str code)) t.http_requests
        + count_where (is_request method route code) requests
unfolding serve_all
count-serve_all method route code [] t = omega arith
count-serve_all method route code ((r, handled) ∷ rest) t = omega (
  arith,
  count-serve method route code r handled t,
  count-serve_all method route code rest (serve r handled t).0,
)

-- After any requests and then one for the metrics, for every method, route and status: the counter
-- under these labels has grown by the number of requests with the method that matched the route, or
-- none where the label is "other", and that the client has had this status for, 500 where the
-- handler raised. The gauge of overdue endpoints is the number of active endpoints, of all users,
-- for which an interval and the grace have gone by since their monitoring began and since every one of
-- their results; and as many are shown as overdue by a read of every endpoint at that time.
pub metrics-serve_all :
    (settings : Settings) (now : ℕ) (db : Database) (requests : List (HttpRequest × Called))
    (t : Telemetry) (method route : Text) (code : ℕ)
    → (count_where
          (has_labels method route (str code))
          (metrics settings now db (serve_all requests t)).http_requests
        ≡ count_where (has_labels method route (str code)) t.http_requests
          + count_where (is_request method route code) requests)
      × ((metrics settings now db (serve_all requests t)).overdue_endpoints
          ≡ count_where (is_late settings.overdue_grace_seconds now db.results) db.endpoints)
      × (overdue_reads
            (map (read_endpoint settings.overdue_grace_seconds now db.results) db.endpoints)
          ≡ count_where (is_late settings.overdue_grace_seconds now db.results) db.endpoints)
unfolding metrics
metrics-serve_all settings now db requests t method route code =
    let (gauge, reads) = count_overdue-late settings.overdue_grace_seconds now db in
    (count-serve_all method route code requests t, gauge, reads)
