-- ===== src/Dispatcher.antt =====
-- app/dispatcher.py with app/events.py and the counters of app/worker_metrics.py that it moves:
-- the tasks that the Celery worker runs.
-- A task is a function from the worker's world to the new world and how the task ended.
pub mod Probe
pub mod Alerting
pub mod Progress
pub mod Rows
pub mod Frame
pub mod History
pub mod Runs
pub mod Published
pub mod Outages
pub mod Claim
pub mod Purge
mod Examples
use monitoring_service.Prelude.{
  ℕ, ◌+◌, Bool, true, false, not, ◌&&◌, ◌||◌, Option, none, some, List, [], ◌∷◌, ◌++◌, ◌==◌, leb,
  if◌then◌else◌,
}
use monitoring_service.Prelude.Text.{Text, text}
use monitoring_service.Prelude.Tables.{select, first_where}
use monitoring_service.Model.{
  AlertChannel, channel_value, AlertConfig, AlertState, CheckResult, Endpoint, Database,
  endpoint_by_id,
}
use Probe.{HttpOutcome, Measurement, probe, is_up_for, outcome_label}
use Alerting.{AlertTask, kind, next_state, state_row, save_state}

-- What `publish_status_change` puts on the status channel.
pub record StatusMessage : Type 0 where
  pub endpoint_id : ℕ
  pub user_id : ℕ
  pub status_code : Option ℕ
  pub checked_at : ℕ
  pub is_up : Bool

-- The database as committed, the Celery messages of the alert tasks, the published messages, and
-- the label sets that `CHECKS` and `ALERTS_QUEUED` were incremented under, in order.
pub record World : Type 0 where
  pub db : Database
  pub queued : List AlertTask
  pub published : List StatusMessage
  pub checks_counted : List Text
  pub alerts_counted : List (Text × Text)

-- The column type admits the two channels only, so the last branch of the source has no case.
unfoldable pub queue_alert : AlertConfig → ℕ → Text → ℕ → Bool → World → World
queue_alert config endpoint_id url timestamp is_recovery w = record w {
  queued =
      w.queued
      ++ record {
        channel = config.channel;
        config_id = config.id;
        target = config.target;
        endpoint_id = endpoint_id;
        url = url;
        timestamp = timestamp;
        is_recovery = is_recovery;
      }
        ∷ [];
  alerts_counted = w.alerts_counted ++ (channel_value config.channel, kind is_recovery) ∷ [];
}

-- One run of `perform_check`: its arguments, and what the outside does. `now` is the clock when the
-- row of a configuration is handled; `commits` is false if the database raises `OperationalError`
-- at the commit; `publishes` is false if Redis raises.
pub record CheckRun : Type 0 where
  pub endpoint_id : ℕ
  pub url : Text
  pub checked_at : ℕ
  pub outcome : HttpOutcome
  pub now : ℕ → ℕ
  pub commits : Bool
  pub publishes : Bool

-- How a task ends: by its last line, by an exception for which Celery retries it, or by another.
pub data TaskEnd : Type 0 where
  done retried failed : TaskEnd

-- The `queue_alert` call of the loop body, if it makes one.
unfoldable pub notify : Option Bool → CheckRun → AlertConfig → World → World
notify none run row w = w
notify (some is_recovery) run row w =
    queue_alert row run.endpoint_id run.url run.checked_at is_recovery w

-- The body of `for row in alert_rows`, on the world as the open transaction sees it.
unfoldable pub handle_row : Bool → CheckRun → AlertConfig → World → World
handle_row is_up run row w =
    let (s, alert) = next_state is_up (run.now row.id) row (state_row row w.db) in
    let w' = notify alert run row w in record w' { db = save_state row s w'.db }

unfoldable pub handle_rows : Bool → CheckRun → List AlertConfig → World → World
handle_rows is_up run [] w = w
handle_rows is_up run (row ∷ rows) w = handle_rows is_up run rows (handle_row is_up run row w)

-- ORDER BY checked_at DESC LIMIT 1 over the results of one endpoint.
unfoldable pub latest_result : ℕ → List CheckResult → Option CheckResult
latest_result i [] = none
latest_result i (r ∷ rs) =
    let later = latest_result i rs in
    if r.endpoint_id == i
    then elim later [
      | none ↦ some r
      | some l ↦ if leb l.checked_at r.checked_at then some r else some l
    ]
    else later

-- `session.add(check_result)`, sent by the next query.
unfoldable pub add_result : CheckRun → Measurement → Database → Database
add_result run m db = record db {
  results =
      db.results
      ++ record {
        id = db.seq.result_seq;
        endpoint_id = run.endpoint_id;
        checked_at = run.checked_at;
        status_code = m.status_code;
        error = m.error;
        response_time_ms = m.response_time_ms;
      }
        ∷ [];
  seq = record db.seq { result_seq = db.seq.result_seq + 1 };
}

abbrev pub alert_rows : ℕ → Database → List AlertConfig
alert_rows i db = select (λ (c : AlertConfig). c.endpoint_id == i && c.is_active) db.configs

-- `prev_is_up is None or prev_is_up != is_up`
unfoldable pub should_publish : Option CheckResult → Bool → Bool
should_publish none is_up = true
should_publish (some prev) is_up = if is_up_for prev.status_code then not is_up else is_up

-- The call of `publish_status_change` with its `except Exception`.
unfoldable pub publish : CheckRun → Option ℕ → Bool → Endpoint → World → World
publish run status_code is_up owner w =
    if run.publishes
    then record w {
      published =
          w.published
          ++ record {
            endpoint_id = run.endpoint_id;
            user_id = owner.user_id;
            status_code = status_code;
            checked_at = run.checked_at;
            is_up = is_up;
          }
            ∷ [];
    }
    else w

-- The transaction of an endpoint that exists, and what follows it. A failed commit rolls the
-- database back; the messages that the loop has sent to Celery stay sent.
unfoldable pub record_check : CheckRun → Measurement → Endpoint → World → World × TaskEnd
record_check run m owner w =
    let is_up = is_up_for m.status_code in
    let w' =
      handle_rows is_up run (alert_rows run.endpoint_id w.db)
        (record w { db = add_result run m w.db }) in
    if not run.commits
    then (record w' { db = w.db }, retried)
    else if should_publish (latest_result run.endpoint_id w.db.results) is_up
    then (publish run m.status_code is_up owner w', done)
    else (w', done)

-- The result row refers to its endpoint: if that is gone, the insert raises `IntegrityError` at the
-- query for the alert rows, before the loop.
unfoldable pub perform_check : CheckRun → World → World × TaskEnd
perform_check run w = elim (probe run.outcome) [
  | none ↦ (w, failed)
  | some m ↦
      let w' = record w { checks_counted = w.checks_counted ++ outcome_label m ∷ [] } in
      elim (endpoint_by_id run.endpoint_id w.db) [
        | none ↦ (w', failed)
        | some owner ↦ record_check run m owner w'
      ]
]
