-- ===== src/Alerts.antt =====
-- app/alerts.py: one attempt to deliver an alert, and the handlers of Celery's signals about it.
-- Celery runs a task again after `raised true`, which an exception of `autoretry_for` is, and sends
-- `task_retry` then; after its last attempt, or after `raised false`, it sends `task_failure`.
pub mod Undelivered
pub mod Messages
pub mod Body
mod Examples
use monitoring_service.Prelude.{
  ℕ, Bool, true, false, not, ◌&&◌, ◌||◌, Option, none, some, List, [], ◌∷◌, ◌++◌, leb, ltb, ◌==◌,
  if◌then◌else◌,
}
use monitoring_service.Prelude.Text.{Text, text}
use monitoring_service.Prelude.Tables.{update_where}
use monitoring_service.Model.{AlertState, Database}
use monitoring_service.Dispatcher.Alerting.{AlertTask, kind}

-- The counters ALERTS_SENT and ALERT_DELIVERY_FAILURES with their labels, and the database.
pub record Worker : Type 0 where
  pub db : Database
  pub alerts_sent : List (Text × Text)
  pub delivery_failures : List (Text × Text)

pub data AttemptEnd : Type 0 where
  finished : AttemptEnd
  raised : Bool → AttemptEnd

-- The SMTP session: it sends the message, raises an `OSError`, which every exception of smtplib is,
-- or raises another exception.
pub data SmtpOutcome : Type 0 where
  sent os_error smtp_other : SmtpOutcome

-- `httpx.post`: a response with its status, a `RequestError`, or another exception.
pub data PostOutcome : Type 0 where
  response : ℕ → PostOutcome
  request_error post_other : PostOutcome

abbrev pub count_sent : Text → Bool → Worker → Worker
count_sent channel is_recovery w = record w {
  alerts_sent = w.alerts_sent ++ (channel, kind is_recovery) ∷ [];
}

abbrev pub count_failure : Text → Text → Worker → Worker
count_failure channel reason w = record w {
  delivery_failures = w.delivery_failures ++ (channel, reason) ∷ [];
}

unfoldable pub send_email_alert : SmtpOutcome → Bool → Worker → Worker × AttemptEnd
send_email_alert sent is_recovery w = (count_sent (text "email") is_recovery w, finished)
send_email_alert os_error is_recovery w = (w, raised true)
send_email_alert smtp_other is_recovery w = (w, raised false)

-- `raise_for_status` raises for a status that is not from 200 to 299.
unfoldable pub send_webhook_alert : PostOutcome → Bool → Worker → Worker × AttemptEnd
send_webhook_alert (response status) is_recovery w =
    if leb 200 status && ltb status 300
    then (count_sent (text "webhook") is_recovery w, finished)
    else if leb 500 status || status == 429
    then (w, raised true)
    else (count_failure (text "webhook") (text "rejected") w, finished)
send_webhook_alert request_error is_recovery w = (w, raised true)
send_webhook_alert post_other is_recovery w = (w, raised false)

-- CHANNEL_BY_TASK: `none` is a task that is not in it.
unfoldable pub count_alert_retry : Option Text → Worker → Worker
count_alert_retry none w = w
count_alert_retry (some channel) w = count_failure channel (text "retry") w

-- UPDATE alertstate SET alert_sent = false WHERE config_id = :config_id AND alert_sent
unfoldable pub mark_alert_undelivered : ℕ → Database → Database
mark_alert_undelivered config_id db = record db {
  states =
      update_where (λ (s : AlertState). s.config_id == config_id && s.alert_sent)
        (λ (s : AlertState). record s { alert_sent = false }) db.states;
}

-- `args` is the task's message; an empty one is `none`.
unfoldable pub handle_alert_exhausted : Option Text → Option AlertTask → Worker → Worker
handle_alert_exhausted none args w = w
handle_alert_exhausted (some channel) none w = w
handle_alert_exhausted (some channel) (some task) w =
    let w' = count_failure channel (text "exhausted") w in
    if task.is_recovery then w' else record w' { db = mark_alert_undelivered task.config_id w'.db }
