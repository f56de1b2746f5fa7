-- ===== src/Dispatcher/Examples.antt =====
-- Runs of the worker's tasks on a small database, and the theorems at these inputs.
use monitoring_service.Prelude.{
  ℕ, ◌+◌, ◌*◌, ◌≡◌, refl, true, false, none, some, List, [], ◌∷◌, ◌++◌, map, arith, All, length,
}
use monitoring_service.Prelude.Text.{text}
use monitoring_service.Prelude.Tables.{delete_where}
use monitoring_service.Model.{
  AlertChannel, AlertConfig, AlertState, CheckResult, Endpoint, empty, second,
}
use monitoring_service.Model.Int.{pos}
use monitoring_service.Dispatcher.{
  World, CheckRun, perform_check, record_check, handle_rows, handle_row, add_result, publish,
  should_publish, latest_result, notify, queue_alert,
}
use monitoring_service.Dispatcher.Probe.{response, timeout_exception, probe, is_up_for}
use monitoring_service.Dispatcher.Alerting.{next_state, state_row, save_state}
use monitoring_service.Dispatcher.Progress.{progress}
use monitoring_service.Dispatcher.History.{
  Alternating, expected, message_after, trailing_failures, outage_alerted,
}
use monitoring_service.Dispatcher.Published.{InOrder, last_published, last_stored}
use monitoring_service.Dispatcher.Published.Agreement.{run_checks-Agrees}
use monitoring_service.Dispatcher.Runs.{IsWatched, run_checks, attempted}
use monitoring_service.Dispatcher.Outages.{kinds_for, alerts-Alternating, retry-duplicates}
use monitoring_service.Dispatcher.Claim.{Dispatch, dispatch_due_checks, is_due, claim}
use monitoring_service.Dispatcher.Claim.Spacing.{Spaced, claim_times, claim_times-Spaced}
use monitoring_service.Dispatcher.Claim.Promptness.{Every, Prompt, last_clock, claim_times-Prompt}
use monitoring_service.Dispatcher.Purge.{Retention, purge_old_results, is_old}
use monitoring_service.Dispatcher.Purge.Outcome.{purge_outcome}

abbrev site : Endpoint
site = record {
  id = 1;
  user_id = 7;
  url = text "https://example.com";
  interval_seconds = 60;
  is_active = true;
  next_check_at = 0;
  monitoring_since = 0;
}

abbrev on_second_failure : AlertConfig
on_second_failure = record {
  id = 1;
  user_id = 7;
  endpoint_id = 1;
  threshold = pos 2;
  channel = AlertChannel.email;
  target = text "ops@example.com";
  is_active = true;
}

abbrev world : World
world = record {
  db = record empty { endpoints = site ∷ []; configs = on_second_failure ∷ [] };
  queued = [];
  published = [];
  checks_counted = [];
  alerts_counted = [];
}

abbrev ok_run : CheckRun
ok_run = record {
  endpoint_id = 1;
  url = text "https://example.com";
  checked_at = 0;
  outcome = response 200 1000;
  now = λ c. 0;
  commits = true;
  publishes = true;
}

abbrev timeout_run : CheckRun
timeout_run = record ok_run { outcome = timeout_exception }

-- two failures, a third, and the recovery
abbrev runs : List CheckRun
runs = timeout_run ∷ timeout_run ∷ timeout_run ∷ ok_run ∷ []

kinds-runs : kinds_for 1 (run_checks runs world) ≡ false ∷ true ∷ []
unfolding run_checks perform_check record_check handle_rows handle_row add_result publish
    should_publish latest_result notify queue_alert probe is_up_for next_state state_row save_state
kinds-runs = refl

fresh-IsWatched : IsWatched on_second_failure site world.db
fresh-IsWatched = record { distinct = (tt, tt); stored = refl; active = refl; owned = refl }

alerts-Alternating_example : Alternating false (kinds_for 1 (run_checks runs world))
alerts-Alternating_example =
    alerts-Alternating on_second_failure site runs world (refl, (refl, (refl, (refl, tt))))
      fresh-IsWatched refl refl

-- the commit of the second failure fails
abbrev lost_run : CheckRun
lost_run = record timeout_run { commits = false }

abbrev alerted_state : AlertState
alerted_state = record {
  id = 1;
  config_id = 1;
  current_streak = 1;
  alert_sent = false;
  last_alert_at = none;
}

abbrev one_failure : World
one_failure = record world { db = record world.db { states = alerted_state ∷ [] } }

failing-IsWatched : IsWatched on_second_failure site one_failure.db
failing-IsWatched = record { distinct = (tt, tt); stored = refl; active = refl; owned = refl }

failed_once : progress 1 one_failure.db ≡ expected (pos 2) (false ∷ [])
unfolding trailing_failures outage_alerted
failed_once = refl

lost-attempted : attempted 1 lost_run ≡ some false
unfolding attempted probe is_up_for
lost-attempted = refl

lost-sends : message_after (pos 2) (false ∷ []) false ≡ some false
unfolding message_after trailing_failures
lost-sends = refl

retry-duplicates_example :
    kinds_for 1
      (perform_check (record lost_run { commits = true }) (perform_check lost_run one_failure).0).0
    ≡ kinds_for 1 one_failure ++ false ∷ false ∷ []
retry-duplicates_example =
    retry-duplicates on_second_failure site lost_run one_failure (false ∷ []) false false refl
      failing-IsWatched failed_once lost-attempted lost-sends

abbrev first_dispatch : Dispatch
first_dispatch = record { probe_time = 90 * second; now = 100 * second; commits = true }

abbrev soon : Dispatch
soon = record { probe_time = 109 * second; now = 110 * second; commits = true }

abbrev late : Dispatch
late = record { probe_time = 159 * second; now = 160 * second; commits = true }

times :
    claim_times 1 (first_dispatch ∷ soon ∷ late ∷ []) world.db ≡ 100 * second ∷ 160 * second ∷ []
unfolding claim_times dispatch_due_checks is_due claim
times = refl

claim_times-Spaced_example :
    Spaced (60 * second) 0 (claim_times 1 (first_dispatch ∷ soon ∷ late ∷ []) world.db)
claim_times-Spaced_example =
    claim_times-Spaced 1 (first_dispatch ∷ soon ∷ late ∷ []) world.db site (tt, tt) refl

abbrev run_at : ℕ → Dispatch
run_at t = record { probe_time = t * second; now = t * second; commits = true }

-- every ten seconds, up to the second check
abbrev on_schedule : List Dispatch
on_schedule = map run_at (5 ∷ 15 ∷ 25 ∷ 35 ∷ 45 ∷ 55 ∷ 65 ∷ [])

on_schedule-Every : Every (10 * second) 0 on_schedule
on_schedule-Every = ground arith

claim_times-Prompt_example :
    Prompt
      (60 * second)
      (10 * second)
      0
      (last_clock 0 on_schedule)
      (claim_times 1 on_schedule world.db)
claim_times-Prompt_example =
    claim_times-Prompt 1 (10 * second) 0 on_schedule world.db site (tt, tt) refl refl (omega arith)
      on_schedule-Every

abbrev result_at : ℕ → CheckResult
result_at day = record {
  id = day;
  endpoint_id = 1;
  checked_at = day * (86_400 * second);
  status_code = some 200;
  error = none;
  response_time_ms = some 5;
}

abbrev month : Retention
month = record { retention_days = 30; purge_batch_size = 2 }

abbrev rows : List CheckResult
rows = result_at 1 ∷ result_at 60 ∷ result_at 2 ∷ result_at 3 ∷ []

abbrev day_90 : ℕ
day_90 = 90 * (86_400 * second)

purge_outcome_example :
    (left : List CheckResult) × (deleted : ℕ) × (purge_old_results month 5 (λ _. day_90) 1 rows
      ≡ some (left, deleted))
    × (deleted + length left ≡ 4)
    × All (λ r. is_old 30 day_90 r ≡ false) left
    × (delete_where (is_old 30 day_90) left ≡ delete_where (is_old 30 day_90) rows)
purge_outcome_example =
    purge_outcome month 5 1 day_90 (λ _. day_90) rows (omega arith) (omega arith) (λ k. omega arith)
      (λ k. omega arith)

abbrev timed_runs : List CheckRun
timed_runs =
    record ok_run { checked_at = 1 }
    ∷ record timeout_run { checked_at = 2; commits = false }
    ∷ record timeout_run { checked_at = 2 }
    ∷ record timeout_run { checked_at = 3 }
    ∷ []

timed-InOrder : InOrder 1 0 timed_runs
timed-InOrder =
    ((λ e. omega arith), ((λ e. omega arith), ((λ e. omega arith), ((λ e. omega arith), tt))))

run_checks-Agrees_example :
    last_published 1 (run_checks timed_runs world).published
    ≡ last_stored 1 (run_checks timed_runs world).db.results
unfolding latest_result
run_checks-Agrees_example =
    run_checks-Agrees 1 0 timed_runs world (refl, (refl, (refl, (refl, tt)))) timed-InOrder tt refl
