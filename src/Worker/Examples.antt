-- ===== src/Worker/Examples.antt =====
-- A worker that goes through two outages of an endpoint and a delivery that is given up.
use monitoring_service.Prelude.{
  Option, none, if◌then◌else◌, ◌+◌, ◌≤◌, ◌≡◌, refl, true, false, some, List, [], ◌∷◌, ◌++◌, All,
}
use monitoring_service.Prelude.Text.{Text, text, text_eq}
use monitoring_service.Model.{AlertChannel, AlertConfig, Endpoint, empty}
use monitoring_service.Model.Int.{pos}
use monitoring_service.Dispatcher.{CheckRun}
use monitoring_service.Dispatcher.Alerting.{AlertTask}
use monitoring_service.Dispatcher.Probe.{response, timeout_exception, probe, is_up_for}
use monitoring_service.Dispatcher.Progress.{progress}
use monitoring_service.Dispatcher.Runs.{IsWatched, attempted, measured}
use monitoring_service.Dispatcher.Outages.{kinds_for}
use monitoring_service.Alerts.{os_error}
use monitoring_service.Worker.{
  Process, Event, check, email_attempt, task_retry, task_failure, channel_by_task, handle_events,
}
use monitoring_service.Worker.History.{
  described, failures, failures_since, flagged, messages_of, message_of, recoveries, downs,
  open_alerts, give_ups,
}
use monitoring_service.Worker.Marks.{Commits, marks, mark_of}
use monitoring_service.Worker.Messages.{
  progress-handle_events, kinds-handle_events, handle_events_bounds,
}
use monitoring_service.Worker.Exhausted.{exhausted_then_check}
use monitoring_service.Worker.Context.{
  ContextVars, IsContextVars, Value, Job, TaskRun, run_tasks, Carry, run_tasks-Carry,
}

abbrev site : Endpoint
site = record {
  id = 1;
  user_id = 7;
  url = text "https://example.com";
  interval_seconds = 60;
  is_active = true;
  next_check_at = 0;
  monitoring_since = 0;
}

abbrev row : AlertConfig
row = record {
  id = 1;
  user_id = 7;
  endpoint_id = 1;
  threshold = pos 2;
  channel = AlertChannel.email;
  target = text "ops@example.com";
  is_active = true;
}

abbrev process : Process
process = record {
  world = record {
    db = record empty { endpoints = site ∷ []; configs = row ∷ [] };
    queued = [];
    published = [];
    checks_counted = [];
    alerts_counted = [];
  };
  alerts_sent = [];
  delivery_failures = [];
}

abbrev up_run : CheckRun
up_run = record {
  endpoint_id = 1;
  url = text "https://example.com";
  checked_at = 0;
  outcome = response 200 1000;
  now = λ c. 0;
  commits = true;
  publishes = true;
}

abbrev down_run : CheckRun
down_run = record up_run { outcome = timeout_exception }

abbrev task : AlertTask
task = record {
  channel = AlertChannel.email;
  config_id = 1;
  target = text "ops@example.com";
  endpoint_id = 1;
  url = text "https://example.com";
  timestamp = 0;
  is_recovery = false;
}

-- the alert of the first outage is given up in the second
abbrev events : List Event
events =
    check down_run
    ∷ check down_run
    ∷ email_attempt os_error false
    ∷ task_retry (text "app.alerts.send_email_alert")
    ∷ check up_run
    ∷ check down_run
    ∷ check down_run
    ∷ task_failure (text "app.alerts.send_email_alert") (some task)
    ∷ check down_run
    ∷ []

events-Commits : All Commits events
events-Commits = (refl, (refl, (tt, (tt, (refl, (refl, (refl, (tt, (refl, tt)))))))))

fresh-IsWatched : IsWatched row site process.world.db
fresh-IsWatched = record { distinct = (tt, tt); stored = refl; active = refl; owned = refl }

fresh_described : progress 1 process.world.db ≡ described (pos 2) []
unfolding failures flagged failures_since
fresh_described = refl

no_messages : kinds_for 1 process.world ≡ messages_of (pos 2) []
unfolding messages_of
no_messages = refl

messages-events : messages_of (pos 2) (marks row events []) ≡ false ∷ true ∷ false ∷ false ∷ []
unfolding messages_of message_of failures failures_since flagged marks mark_of measured attempted
    probe is_up_for channel_by_task
messages-events = refl

progress-handle_events_example :
    progress 1 (handle_events events process).world.db ≡ described (pos 2) (marks row events [])
progress-handle_events_example =
    progress-handle_events row site events [] process fresh-IsWatched fresh_described

kinds-handle_events_example :
    kinds_for 1 (handle_events events process).world ≡ messages_of (pos 2) (marks row events [])
kinds-handle_events_example =
    kinds-handle_events row site events [] process events-Commits fresh-IsWatched fresh_described
      no_messages

handle_events_bounds_example :
    (recoveries (kinds_for 1 (handle_events events process).world)
        + open_alerts (progress 1 (handle_events events process).world.db).1
      ≤ downs (kinds_for 1 (handle_events events process).world))
    × (downs (kinds_for 1 (handle_events events process).world)
        ≤ recoveries (kinds_for 1 (handle_events events process).world)
          + open_alerts (progress 1 (handle_events events process).world.db).1
          + give_ups (marks row events []))
handle_events_bounds_example =
    handle_events_bounds row site events process events-Commits fresh-IsWatched refl refl

-- the second outage has been alerted, with two failures
abbrev in_outage : Process
in_outage = record process {
  world = record process.world {
    db = record process.world.db {
      states =
          record {
            id = 1;
            config_id = 1;
            current_streak = 2;
            alert_sent = true;
            last_alert_at = some 0;
          }
          ∷ [];
    };
  };
}

outage-IsWatched : IsWatched row site in_outage.world.db
outage-IsWatched = record { distinct = (tt, tt); stored = refl; active = refl; owned = refl }

up-attempted : attempted 1 up_run ≡ some true
unfolding attempted probe is_up_for
up-attempted = refl

email_known : channel_by_task (text "app.alerts.send_email_alert") ≡ some (text "email")
unfolding channel_by_task
email_known = refl

exhausted_then_check_example :
    kinds_for 1
      (handle_events
        (task_failure (text "app.alerts.send_email_alert") (some task) ∷ check up_run ∷ [])
        in_outage).world
    ≡ kinds_for 1 in_outage.world ++ []
exhausted_then_check_example =
    exhausted_then_check row site (text "app.alerts.send_email_alert") (text "email") task up_run
      true in_outage email_known refl refl outage-IsWatched up-attempted

-- the bound names as a list, the newest first
abbrev bound_value : Text → List (Text × Value) → Option Value
bound_value k [] = none
bound_value k ((j, v) ∷ c) = if text_eq j k then some v else bound_value k c

abbrev vars : ContextVars
vars = record {
  Context = List (Text × Value);
  clear = λ c. [];
  bind = λ j v c. (j, v) ∷ c;
  merged = bound_value;
}

vars-IsContextVars : IsContextVars vars
vars-IsContextVars = record { merged-clear = λ k c. refl; merged-bind = λ k j v c. refl }

abbrev alert_run : TaskRun
alert_run = record { task_id = text "t1"; job = Job.send_email_alert 4 true }

abbrev dispatch_run : TaskRun
dispatch_run = record { task_id = text "t2"; job = Job.dispatch_due_checks }

run_tasks-Carry_example :
    Carry vars (alert_run ∷ dispatch_run ∷ []) (run_tasks vars (alert_run ∷ dispatch_run ∷ []) []).0
    × ((k : Text) → vars.merged k (run_tasks vars (alert_run ∷ dispatch_run ∷ []) []).1 ≡ none)
run_tasks-Carry_example = run_tasks-Carry vars vars-IsContextVars alert_run (dispatch_run ∷ []) []
