-- ===== src/Analytics.antt =====
-- app/db.py, the queries of the analytics page, and `get_analytics` of app/api.py above them.
-- PostgreSQL's `percentile_cont` and Python's rounding of a quotient give numbers that are only
-- passed on: their type and the two functions are parameters.
pub mod Incidents
pub mod Account
mod Examples
use monitoring_service.Prelude.{
  ℕ, zero, suc, ◌+◌, Bool, ◌&&◌, Option, none, some, List, [], ◌∷◌, ◌==◌, length, if◌then◌else◌,
}
use monitoring_service.Prelude.Tables.{select, count_where, first_where}
use monitoring_service.Model.{CheckResult, Endpoint, Database}
use monitoring_service.Store.{Response, body, http_exception, get_owned_endpoint}
use Incidents.{Incident, get_endpoint_incidents, in_window, is_up}

-- The column without its NULLs.
unfoldable pub response_times : List CheckResult → List ℕ
response_times [] = []
response_times (r ∷ rs) =
    let rest = response_times rs in elim r.response_time_ms [ none ↦ rest | some t ↦ t ∷ rest ]

pub record Summary (Number : Type 0) : Type 0 where
  pub total_checks : ℕ
  pub up_checks : ℕ
  pub p50 : Option Number
  pub p95 : Option Number
  pub p99 : Option Number

pub record EndpointAnalytics (Number : Type 0) : Type 0 where
  pub endpoint_id : ℕ
  pub window_days : ℕ
  pub total_checks : ℕ
  pub up_checks : ℕ
  pub uptime_percent : Option Number
  pub p50_response_ms : Option Number
  pub p95_response_ms : Option Number
  pub p99_response_ms : Option Number
  pub incidents : List Incident

module _ {Number : Type 0} (percentile_cont : ℕ → List ℕ → Option Number)
    (percent : ℕ → ℕ → Number) where
  -- `now` is the clock of the query's transaction.
  unfoldable pub get_endpoint_summary : ℕ → ℕ → List CheckResult → Summary Number
  get_endpoint_summary endpoint_id now results =
      let rows = select (in_window endpoint_id now) results in
      record {
        total_checks = length rows;
        up_checks = count_where is_up rows;
        p50 = percentile_cont 50 (response_times rows);
        p95 = percentile_cont 95 (response_times rows);
        p99 = percentile_cont 99 (response_times rows);
      }

  -- round(up / total * 100, 2) if total else None
  abbrev uptime : ℕ → ℕ → Option Number
  uptime up zero = none
  uptime up (suc n) = some (percent up (suc n))

  -- The two queries run in one transaction, so they see one clock.
  unfoldable pub get_analytics : ℕ → ℕ → ℕ → Database → Response (EndpointAnalytics Number)
  get_analytics endpoint_id user_id now db = elim (get_owned_endpoint endpoint_id user_id db) [
    | none ↦ http_exception 404
    | some _ ↦
        let summary = get_endpoint_summary endpoint_id now db.results in
        body (record {
          endpoint_id = endpoint_id;
          window_days = 7;
          total_checks = summary.total_checks;
          up_checks = summary.up_checks;
          uptime_percent = uptime summary.up_checks summary.total_checks;
          p50_response_ms = summary.p50;
          p95_response_ms = summary.p95;
          p99_response_ms = summary.p99;
          incidents = get_endpoint_incidents endpoint_id now db.results;
        })
  ]
