-- ===== src/Analytics/Account.antt =====
-- app/api.py, `get_analytics`: its figures beside one another, and beside the worker's `is_up_for`.
use mathlib.Core.List.{reverse-cons}
use monitoring_service.Prelude.{
  ℕ, ◌+◌, ◌<◌, ◌≡◌, ◌≢◌, refl, ap, ◌∙◌, inl, inr, Bool, Option, none, some, List, [], ◌∷◌, ◌++◌,
  map, reverse, arith, All, Bool-cases, length, leb, if◌then◌else◌,
}
use monitoring_service.Prelude.Tables.{select, count_where, All-mono}
use monitoring_service.Model.{CheckResult, Database}
use monitoring_service.Dispatcher.Probe.{is_up_for}
use monitoring_service.Analytics.{body, EndpointAnalytics, get_analytics, get_endpoint_summary}
use monitoring_service.Analytics.Incidents.{
  Incident, get_endpoint_incidents, in_window, is_up, sql_up, incident_of, insert_by_time,
  order_by_time,
}
use monitoring_service.Analytics.Incidents.Runs.{down_runs, starts_down, prepend}
use monitoring_service.Analytics.Incidents.Numbering.{Increasing}
use monitoring_service.Analytics.Incidents.Outages.{outage, incidents_of-eq-outages}

-- The SQL test and the worker's test of a status agree on every value.
pub sql_up-eq-is_up_for : (status_code : Option ℕ) → sql_up status_code ≡ is_up_for status_code
unfolding sql_up is_up_for
sql_up-eq-is_up_for none = refl
sql_up-eq-is_up_for (some s) = ground arith

-- No two rows have one time.
abbrev pub DistinctTimes : List CheckResult → Type 0
DistinctTimes [] = Unit
DistinctTimes (r ∷ rs) = All (λ s. s.checked_at ≢ r.checked_at) rs × DistinctTimes rs

All-insert_by_time {κ} :
    (P : CheckResult → Type κ) (r : CheckResult) (rs : List CheckResult)
    → P r
    → All P rs
    → All P (insert_by_time r rs)
unfolding insert_by_time
All-insert_by_time P r [] p h = (p, tt)
All-insert_by_time P r (s ∷ rs) p h = ground (arith, All-insert_by_time P r rs p h.1)

pub All-order_by_time {κ} :
    (P : CheckResult → Type κ) (rs : List CheckResult) → All P rs → All P (order_by_time rs)
unfolding order_by_time
All-order_by_time P [] h = tt
All-order_by_time P (r ∷ rs) h =
    All-insert_by_time P r (order_by_time rs) h.0 (All-order_by_time P rs h.1)

insert_by_time-Increasing :
    (r : CheckResult) (rs : List CheckResult)
    → All (λ s. s.checked_at ≢ r.checked_at) rs
    → Increasing rs
    → Increasing (insert_by_time r rs)
unfolding insert_by_time
insert_by_time-Increasing r [] h g = (tt, tt)
insert_by_time-Increasing r (s ∷ rs) h g = elim (Bool-cases (leb r.checked_at s.checked_at)) [
  | inl first ↦
      let lt : r.checked_at < s.checked_at = ground arith in
      rw first (
        (
          lt,
          All-mono (λ (x : CheckResult). s.checked_at < x.checked_at)
              (λ (x : CheckResult). r.checked_at < x.checked_at) rs (λ x h. omega arith) g.0,
        ),
        g,
      )
  | inr later ↦ rw later (
    All-insert_by_time (λ (x : CheckResult). s.checked_at < x.checked_at) r rs (ground arith) g.0,
    insert_by_time-Increasing r rs h.1 g.1,
  )
]

pub order_by_time-Increasing :
    (rs : List CheckResult) → DistinctTimes rs → Increasing (order_by_time rs)
unfolding order_by_time
order_by_time-Increasing [] h = tt
order_by_time-Increasing (r ∷ rs) h =
    insert_by_time-Increasing r (order_by_time rs)
      (All-order_by_time (λ s. s.checked_at ≢ r.checked_at) rs h.0)
      (order_by_time-Increasing rs h.1)

count_where-insert_by_time :
    (test : CheckResult → Bool) (r : CheckResult) (rs : List CheckResult)
    → count_where test (insert_by_time r rs) ≡ count_where test (r ∷ rs)
unfolding insert_by_time
count_where-insert_by_time test r [] = refl
count_where-insert_by_time test r (s ∷ rs) = ground (arith, count_where-insert_by_time test r rs)

count_where-order_by_time :
    (test : CheckResult → Bool) (rs : List CheckResult)
    → count_where test (order_by_time rs) ≡ count_where test rs
unfolding order_by_time
count_where-order_by_time test [] = refl
count_where-order_by_time test (r ∷ rs) =
    omega (
      arith,
      count_where-insert_by_time test r (order_by_time rs),
      count_where-order_by_time test rs,
    )

length-insert_by_time :
    (r : CheckResult) (rs : List CheckResult) → length (insert_by_time r rs) ≡ length rs + 1
unfolding insert_by_time
length-insert_by_time r [] = refl
length-insert_by_time r (s ∷ rs) = ground (arith, length-insert_by_time r rs)

length-order_by_time : (rs : List CheckResult) → length (order_by_time rs) ≡ length rs
unfolding order_by_time
length-order_by_time [] = refl
length-order_by_time (r ∷ rs) =
    omega (arith, length-insert_by_time r (order_by_time rs), length-order_by_time rs)

abbrev pub total_of : List Incident → ℕ
total_of [] = 0
total_of (i ∷ is) = i.checks + total_of is

total_of-append : (is js : List Incident) → total_of (is ++ js) ≡ total_of is + total_of js
total_of-append [] js = omega arith
total_of-append (i ∷ is) js = omega (arith, total_of-append is js)

total_of-reverse : (is : List Incident) → total_of (reverse is) ≡ total_of is
total_of-reverse [] = refl
total_of-reverse (i ∷ is) =
    ap total_of (reverse-cons i is)
    ∙ omega (arith, total_of-append (reverse is) (i ∷ []), total_of-reverse is)

checks-outage : (run : List CheckResult) → (outage run).checks ≡ length run
unfolding outage incident_of
checks-outage [] = refl
checks-outage (r ∷ rs) = refl

-- every row that is not up is in one of the runs
total_of-down_runs :
    (rows : List CheckResult)
    → total_of (map outage (down_runs rows)) + count_where is_up rows ≡ length rows
unfolding down_runs
total_of-down_runs [] = refl
total_of-down_runs (r ∷ rs) = go (down_runs rs) (total_of-down_runs rs)
  where
    go :
        (rest : List (List CheckResult))
        → total_of (map outage rest) + count_where is_up rs ≡ length rs
        → total_of (
              map outage (
                if is_up r
                then rest
                else if starts_down rs
                then prepend r rest
                else (r ∷ []) ∷ rest))
            + count_where is_up (r ∷ rs)
          ≡ length (r ∷ rs)
    go [] h = ground (arith, checks-outage (r ∷ []))
    go (run ∷ runs) h =
        ground (arith, checks-outage (r ∷ []), checks-outage (r ∷ run), checks-outage run)

-- If the checks of the window have distinct times, the incidents of an endpoint are the outages of
-- the maximal runs of down checks among them, the latest first.
pub get_endpoint_incidents_lem :
    (endpoint_id now : ℕ) (results : List CheckResult)
    → DistinctTimes (select (in_window endpoint_id now) results)
    → get_endpoint_incidents endpoint_id now results
      ≡ reverse
          (map outage (down_runs (order_by_time (select (in_window endpoint_id now) results))))
unfolding get_endpoint_incidents
get_endpoint_incidents_lem endpoint_id now results h =
    incidents_of-eq-outages _
      (order_by_time-Increasing (select (in_window endpoint_id now) results) h)

incidents_account :
    (endpoint_id now : ℕ) (results : List CheckResult)
    → DistinctTimes (select (in_window endpoint_id now) results)
    → total_of (get_endpoint_incidents endpoint_id now results)
        + count_where is_up (select (in_window endpoint_id now) results)
      ≡ length (select (in_window endpoint_id now) results)
incidents_account endpoint_id now results h =
    let rows = select (in_window endpoint_id now) results in
    rw (get_endpoint_incidents_lem endpoint_id now results h) (
      omega (
        arith,
        total_of-reverse (map outage (down_runs (order_by_time rows))),
        total_of-down_runs (order_by_time rows),
        count_where-order_by_time is_up rows,
        length-order_by_time rows,
      ))

module _ {Number : Type 0} (percentile_cont : ℕ → List ℕ → Option Number)
    (percent : ℕ → ℕ → Number) where
  -- On every page that is shown, if the checks of the window have distinct times, the checks of the
  -- incidents and the checks that were up add up to all checks.
  pub analytics_account :
      (endpoint_id user_id now : ℕ) (db : Database) (page : EndpointAnalytics Number)
      → DistinctTimes (select (in_window endpoint_id now) db.results)
      → get_analytics percentile_cont percent endpoint_id user_id now db ≡ body page
      → total_of page.incidents + page.up_checks ≡ page.total_checks
  unfolding get_analytics get_endpoint_summary
  analytics_account endpoint_id user_id now db page h shown =
      ground (arith, incidents_account endpoint_id now db.results h)
