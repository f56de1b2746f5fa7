-- ===== src/Metrics/Examples.antt =====
-- A worker that goes through each kind of event, and the theorem at it.
use monitoring_service.Prelude.{true, false, none, [], ◌∷◌, List}
use monitoring_service.Prelude.Text.{text}
use monitoring_service.Model.{Database, empty, webhook}
use monitoring_service.Model.Int.{pos}
use monitoring_service.Dispatcher.Probe.{timeout_exception}
use monitoring_service.Alerts.{os_error, sent, response}
use monitoring_service.Worker.{
  Process, Event, check, email_attempt, webhook_attempt, task_retry, task_failure, handle_events,
}
use monitoring_service.Metrics.Declared.{Declared, handle_events-Declared}

-- An endpoint with an alert at its first failure.
abbrev watched : Database
watched = record empty {
  endpoints =
      record {
        id = 1;
        user_id = 7;
        url = text "http://a.b/";
        interval_seconds = 60;
        is_active = true;
        next_check_at = 0;
        monitoring_since = 0;
      }
      ∷ [];
  configs =
      record {
        id = 1;
        user_id = 7;
        endpoint_id = 1;
        threshold = pos 1;
        channel = webhook;
        target = text "http://c.d/";
        is_active = true;
      }
      ∷ [];
}

abbrev fresh : Process
fresh = record {
  world = record {
    db = watched;
    queued = [];
    published = [];
    checks_counted = [];
    alerts_counted = [];
  };
  alerts_sent = [];
  delivery_failures = [];
}

abbrev events : List Event
events =
    check (record {
      endpoint_id = 1;
      url = text "http://a.b/";
      checked_at = 5;
      outcome = timeout_exception;
      now = λ _. 6;
      commits = true;
      publishes = true;
    })
    ∷ email_attempt os_error false
    ∷ task_retry (text "app.alerts.send_email_alert")
    ∷ email_attempt sent false
    ∷ webhook_attempt (response 404) true
    ∷ task_failure (text "app.alerts.send_webhook_alert") none
    ∷ []

handle_events-Declared_example : Declared (handle_events events fresh)
handle_events-Declared_example =
    handle_events-Declared events fresh
      (record { checks = tt; queued = tt; sent = tt; failures = tt })
