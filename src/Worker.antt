-- ===== src/Worker.antt =====
-- A Celery worker: the tasks of app/dispatcher.py and app/alerts.py and the handlers of the signals
-- about them, as steps on one state.
pub mod History
pub mod Effects
pub mod Marks
pub mod Messages
pub mod Exhausted
pub mod Context
mod Examples
use monitoring_service.Prelude.{Bool, true, false, Option, none, some, List, [], ◌∷◌, if◌then◌else◌}
use monitoring_service.Prelude.Text.{Text, text, text_eq}
use monitoring_service.Dispatcher.{CheckRun, World, perform_check}
use monitoring_service.Dispatcher.Alerting.{AlertTask}
use monitoring_service.Alerts.{
  Worker, AttemptEnd, SmtpOutcome, PostOutcome, send_email_alert, send_webhook_alert,
  count_alert_retry, handle_alert_exhausted,
}

-- CHANNEL_BY_TASK, with the names that Celery gives the tasks.
unfoldable pub channel_by_task : Text → Option Text
channel_by_task name =
    if text_eq name (text "app.alerts.send_email_alert")
    then some (text "email")
    else if text_eq name (text "app.alerts.send_webhook_alert")
    then some (text "webhook")
    else none

-- A worker: what its tasks change, with the labels that its counters were incremented under.
pub record Process : Type 0 where
  pub world : World
  pub alerts_sent : List (Text × Text)
  pub delivery_failures : List (Text × Text)

-- What a worker does: it runs a check or an attempt to deliver an alert, or handles the signal of a
-- task with this name that is run again or has failed.
pub data Event : Type 0 where
  check : CheckRun → Event
  email_attempt : SmtpOutcome → Bool → Event
  webhook_attempt : PostOutcome → Bool → Event
  task_retry : Text → Event
  task_failure : Text → Option AlertTask → Event

abbrev pub alerts_of : Process → Worker
alerts_of p = record {
  db = p.world.db;
  alerts_sent = p.alerts_sent;
  delivery_failures = p.delivery_failures;
}

abbrev pub with_alerts : Process → Worker → Process
with_alerts p w = record {
  world = record p.world { db = w.db };
  alerts_sent = w.alerts_sent;
  delivery_failures = w.delivery_failures;
}

unfoldable pub handle_event : Event → Process → Process
handle_event (check run) p = record p { world = (perform_check run p.world).0 }
handle_event (email_attempt outcome is_recovery) p =
    with_alerts p (send_email_alert outcome is_recovery (alerts_of p)).0
handle_event (webhook_attempt outcome is_recovery) p =
    with_alerts p (send_webhook_alert outcome is_recovery (alerts_of p)).0
handle_event (task_retry name) p =
    with_alerts p (count_alert_retry (channel_by_task name) (alerts_of p))
handle_event (task_failure name args) p =
    with_alerts p (handle_alert_exhausted (channel_by_task name) args (alerts_of p))

unfoldable pub handle_events : List Event → Process → Process
handle_events [] p = p
handle_events (e ∷ es) p = handle_events es (handle_event e p)
