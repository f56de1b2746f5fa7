-- ===== src/Analytics/Examples.antt =====
-- A week of one endpoint's checks, and the theorems about the analytics page at it.
use monitoring_service.Prelude.{
  ℕ, ◌+◌, ◌*◌, ◌≡◌, refl, true, Option, none, some, List, [], ◌∷◌, map, reverse, arith,
}
use monitoring_service.Prelude.Text.{text}
use monitoring_service.Prelude.Tables.{select}
use monitoring_service.Model.{CheckResult, CheckError, timeout, Database, Endpoint, empty, second}
use monitoring_service.Analytics.{
  body, EndpointAnalytics, get_analytics, get_endpoint_summary, response_times,
}
use monitoring_service.Store.{get_owned_endpoint}
use monitoring_service.Analytics.Incidents.{
  get_endpoint_incidents, in_window, sql_up, order_by_time, incidents_of, mark, run_id,
  group_by_run, insert_group, incident_of, min_time, max_time, least_error, insert_latest,
  latest_first,
}
use monitoring_service.Analytics.Incidents.Runs.{down_runs}
use monitoring_service.Analytics.Incidents.Outages.{outage}
use monitoring_service.Analytics.Account.{
  get_endpoint_incidents_lem, analytics_account, total_of, DistinctTimes,
}

abbrev result : ℕ → Option ℕ → Option CheckError → CheckResult
result minute status_code error = record {
  id = minute;
  endpoint_id = 1;
  checked_at = minute * (60 * second);
  status_code = status_code;
  error = error;
  response_time_ms = none;
}

-- up, two failures, up, one failure; stored out of order, as a late retry leaves them
abbrev results : List CheckResult
results =
    result 1 (some 200) none
    ∷ result 3 none (some timeout)
    ∷ result 2 (some 503) none
    ∷ result 4 (some 301) none
    ∷ result 5 (some 500) none
    ∷ []

abbrev now : ℕ
now = 6 * (60 * second)

found :
    get_endpoint_incidents 1 now results
    ≡ record {
      started_at = 5 * (60 * second);
      ended_at = 5 * (60 * second);
      duration_seconds = 0;
      checks = 1;
      error = none;
    }
      ∷ record {
        started_at = 2 * (60 * second);
        ended_at = 3 * (60 * second);
        duration_seconds = 60;
        checks = 2;
        error = some timeout;
      }
      ∷ []
unfolding get_endpoint_incidents in_window order_by_time incidents_of mark run_id sql_up
    group_by_run insert_group incident_of min_time max_time least_error latest_first insert_latest
found = refl

distinct : DistinctTimes (select (in_window 1 now) results)
unfolding in_window
distinct = omega arith

get_endpoint_incidents_example :
    get_endpoint_incidents 1 now results
    ≡ reverse (map outage (down_runs (order_by_time (select (in_window 1 now) results))))
get_endpoint_incidents_example = get_endpoint_incidents_lem 1 now results distinct

abbrev site : Endpoint
site = record {
  id = 1;
  user_id = 7;
  url = text "https://example.com";
  interval_seconds = 60;
  is_active = true;
  next_check_at = 0;
  monitoring_since = 0;
}

abbrev db : Database
db = record empty { endpoints = site ∷ []; results = results }

-- percentiles and percentages stood in for by whole numbers
abbrev first_of : ℕ → List ℕ → Option ℕ
first_of p [] = none
first_of p (t ∷ ts) = some t

abbrev up_count : ℕ → ℕ → ℕ
up_count up total = up

abbrev page : EndpointAnalytics ℕ
page = record {
  endpoint_id = 1;
  window_days = 7;
  total_checks = 5;
  up_checks = 2;
  uptime_percent = some 2;
  p50_response_ms = none;
  p95_response_ms = none;
  p99_response_ms = none;
  incidents = get_endpoint_incidents 1 now results;
}

shown : get_analytics first_of up_count 1 7 now db ≡ body page
unfolding get_analytics get_owned_endpoint get_endpoint_summary in_window sql_up response_times
shown = refl

analytics_account_example : total_of page.incidents + 2 ≡ 5
analytics_account_example = analytics_account first_of up_count 1 7 now db page distinct shown
