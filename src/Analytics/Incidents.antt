-- ===== src/Analytics/Incidents.antt =====
-- app/db.py, `get_endpoint_incidents`: the window query, clause by clause.
pub mod Runs
pub mod Numbering
pub mod Grouping
pub mod Chunks
pub mod Outages
use monitoring_service.Prelude.{
  ℕ, ◌+◌, ◌*◌, ◌-◌, ◌/◌, Bool, true, false, not, ◌&&◌, Option, none, some, List, [], ◌∷◌, map, leb,
  ◌==◌, length, if◌then◌else◌,
}
use monitoring_service.Prelude.Tables.{select, count_where}
use monitoring_service.Model.{
  CheckError, timeout, dns_failure, connection_refused, connect_error, unknown, CheckResult, second,
}

-- status_code IS NOT NULL AND status_code BETWEEN 200 AND 399
unfoldable pub sql_up : Option ℕ → Bool
sql_up none = false
sql_up (some status_code) = leb 200 status_code && leb status_code 399

abbrev pub is_up : CheckResult → Bool
is_up r = sql_up r.status_code

-- WHERE endpoint_id = :endpoint_id AND checked_at >= now() - INTERVAL '7 days'
unfoldable pub in_window : ℕ → ℕ → CheckResult → Bool
in_window endpoint_id now r =
    r.endpoint_id == endpoint_id && leb now (r.checked_at + 7 * (86_400 * second))

-- ORDER BY checked_at
unfoldable pub insert_by_time : CheckResult → List CheckResult → List CheckResult
insert_by_time r [] = r ∷ []
insert_by_time r (s ∷ rs) =
    if leb r.checked_at s.checked_at then r ∷ s ∷ rs else s ∷ insert_by_time r rs

unfoldable pub order_by_time : List CheckResult → List CheckResult
unfolding insert_by_time
order_by_time [] = []
order_by_time (r ∷ rs) = insert_by_time r (order_by_time rs)

-- A row of `marked`: the check with the `is_up` of the one before it.
pub record Marked : Type 0 where
  pub row : CheckResult
  pub prev_is_up : Option Bool

-- lag(…) OVER (ORDER BY checked_at)
unfoldable pub mark : Option Bool → List CheckResult → List Marked
mark prev [] = []
mark prev (r ∷ rs) = record { row = r; prev_is_up = prev } ∷ mark (some (is_up r)) rs

-- is_up IS DISTINCT FROM prev_is_up
abbrev pub differs : Bool → Option Bool → Bool
differs b none = true
differs true (some p) = not p
differs false (some p) = p

abbrev pub starts_run : Marked → Bool
starts_run m = differs (is_up m.row) m.prev_is_up

-- count(*) FILTER (WHERE …) OVER (ORDER BY checked_at): the frame ends with the rows that have the
-- current row's time.
unfoldable pub run_id : List Marked → Marked → ℕ
run_id all m =
    count_where (λ (x : Marked). leb x.row.checked_at m.row.checked_at && starts_run x) all

abbrev pub Numbered : Type 0
Numbered = ℕ × CheckResult

-- WHERE NOT is_up
abbrev pub down_rows : List Numbered → List Numbered
down_rows = select (λ (x : Numbered). not (is_up x.1))

abbrev pub Group : Type 0
Group = ℕ × List CheckResult

-- GROUP BY run_id
unfoldable pub insert_group : ℕ → CheckResult → List Group → List Group
insert_group k r [] = (k, r ∷ []) ∷ []
insert_group k r ((j, rs) ∷ gs) = if k == j then (j, r ∷ rs) ∷ gs else (j, rs) ∷ insert_group k r gs

unfoldable pub group_by_run : List Numbered → List Group
group_by_run [] = []
group_by_run ((k, r) ∷ rest) = insert_group k r (group_by_run rest)

-- The order of texts in the `error` column.
abbrev pub error_rank : CheckError → ℕ
error_rank connect_error = 0
error_rank connection_refused = 1
error_rank dns_failure = 2
error_rank timeout = 3
error_rank unknown = 4

-- min(error) passes over NULL.
abbrev pub min_error : Option CheckError → Option CheckError → Option CheckError
min_error none e = e
min_error (some a) none = some a
min_error (some a) (some b) = if leb (error_rank a) (error_rank b) then some a else some b

pub record Incident : Type 0 where
  pub started_at : ℕ
  pub ended_at : ℕ
  pub duration_seconds : ℕ
  pub checks : ℕ
  pub error : Option CheckError

-- The aggregates of one group, over its first row and the others.
unfoldable pub min_time : ℕ → List CheckResult → ℕ
min_time t [] = t
min_time t (r ∷ rs) = min_time (if leb r.checked_at t then r.checked_at else t) rs

unfoldable pub max_time : ℕ → List CheckResult → ℕ
max_time t [] = t
max_time t (r ∷ rs) = max_time (if leb t r.checked_at then r.checked_at else t) rs

unfoldable pub least_error : List CheckResult → Option CheckError
least_error [] = none
least_error (r ∷ rs) = min_error r.error (least_error rs)

-- One row of the result as the Python code makes an `Incident` of it; no group is empty.
unfoldable pub incident_of : List CheckResult → Incident
incident_of [] = record {
  started_at = 0;
  ended_at = 0;
  duration_seconds = 0;
  checks = 0;
  error = none;
}
incident_of (r ∷ rs) =
    let started = min_time r.checked_at rs in
    let ended = max_time r.checked_at rs in
    record {
      started_at = started;
      ended_at = ended;
      duration_seconds = (ended - started) / second;
      checks = length (r ∷ rs);
      error = least_error (r ∷ rs);
    }

-- ORDER BY started_at DESC
unfoldable pub insert_latest : Incident → List Incident → List Incident
insert_latest i [] = i ∷ []
insert_latest i (j ∷ js) =
    if leb j.started_at i.started_at then i ∷ j ∷ js else j ∷ insert_latest i js

unfoldable pub latest_first : List Incident → List Incident
latest_first [] = []
latest_first (i ∷ is) = insert_latest i (latest_first is)

-- The query over rows in the order of their times.
unfoldable pub incidents_of : List CheckResult → List Incident
incidents_of rows =
    let marked = mark none rows in
    let grouped = map (λ (m : Marked). (run_id marked m, m.row)) marked in
    latest_first (map (λ (g : Group). incident_of g.1) (group_by_run (down_rows grouped)))

unfoldable pub get_endpoint_incidents : ℕ → ℕ → List CheckResult → List Incident
get_endpoint_incidents endpoint_id now results =
    incidents_of (order_by_time (select (in_window endpoint_id now) results))
