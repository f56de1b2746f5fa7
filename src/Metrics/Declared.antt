-- ===== src/Metrics/Declared.antt =====
-- app/worker_metrics.py: the labels that the worker counts under, beside the series made up front.
use monitoring_service.Prelude.{
  ◌≡◌, refl, Bool, true, false, Option, some, List, [], ◌∷◌, ◌++◌, arith, All, ◌⊎◌, inl, inr,
  Option-cases,
}
use monitoring_service.Prelude.Text.{Text, text}
use monitoring_service.Prelude.Tables.{any_where, All-append}
use monitoring_service.Model.{AlertChannel, email, webhook, channel_value}
use monitoring_service.Dispatcher.Alerting.{AlertTask, kind}
use monitoring_service.Alerts.{
  Worker, SmtpOutcome, sent, os_error, smtp_other, PostOutcome, response, request_error, post_other,
  send_email_alert, send_webhook_alert, count_alert_retry, handle_alert_exhausted,
}
use monitoring_service.Metrics.Counted.{
  IsOutcome, IsQueued, perform_check-IsQueued, perform_check-IsOutcome,
}
use monitoring_service.Worker.{
  channel_by_task, Process, Event, check, email_attempt, webhook_attempt, task_retry, task_failure,
  alerts_of, with_alerts, handle_event, handle_events,
}
use monitoring_service.Metrics.{up_front, pair_eq}

abbrev IsSent : Text × Text → Type 0
IsSent l = any_where (pair_eq l) up_front.alerts_sent ≡ true

abbrev IsFailure : Text × Text → Type 0
IsFailure l = any_where (pair_eq l) up_front.delivery_failures ≡ true

-- Every label set of the four counters has its series.
pub record Declared (p : Process) : Type 0 where
  pub checks : All IsOutcome p.world.checks_counted
  pub queued : All IsQueued p.world.alerts_counted
  pub sent : All IsSent p.alerts_sent
  pub failures : All IsFailure p.delivery_failures

-- What a failed delivery counts: the channel of its task with one of the reasons.
channel-IsFailure :
    (channel : Text) (failures : List (Text × Text))
    → (channel ≡ text "email") ⊎ (channel ≡ text "webhook")
    → All IsFailure failures
    → All IsFailure (failures ++ (channel, text "retry") ∷ [])
      × All IsFailure (failures ++ (channel, text "exhausted") ∷ [])
channel-IsFailure channel failures (inl e) h =
    rw e
      (All-append IsFailure failures _ h (refl, tt), All-append IsFailure failures _ h (refl, tt))
channel-IsFailure channel failures (inr e) h =
    rw e
      (All-append IsFailure failures _ h (refl, tt), All-append IsFailure failures _ h (refl, tt))

channel_by_task_cases :
    (name channel : Text)
    → channel_by_task name ≡ some channel
    → (channel ≡ text "email") ⊎ (channel ≡ text "webhook")
unfolding channel_by_task
channel_by_task_cases name channel h = ground arith

-- What the tasks and handlers of app/alerts.py count.
abbrev HasSeries : Worker → Type 0
HasSeries w = All IsSent w.alerts_sent × All IsFailure w.delivery_failures

alerts-Declared : (p : Process) (w : Worker) → Declared p → HasSeries w → Declared (with_alerts p w)
alerts-Declared p w d l = record {
  checks = d.checks;
  queued = d.queued;
  sent = l.0;
  failures = l.1;
}

kind-IsSent :
    (c : AlertChannel) (is_recovery : Bool) (old : List (Text × Text))
    → All IsSent old
    → All IsSent (old ++ (channel_value c, kind is_recovery) ∷ [])
kind-IsSent email true old h = All-append IsSent old _ h (refl, tt)
kind-IsSent email false old h = All-append IsSent old _ h (refl, tt)
kind-IsSent webhook true old h = All-append IsSent old _ h (refl, tt)
kind-IsSent webhook false old h = All-append IsSent old _ h (refl, tt)

send_email_alert-HasSeries :
    (outcome : SmtpOutcome) (is_recovery : Bool) (w : Worker)
    → All IsSent w.alerts_sent
    → All IsFailure w.delivery_failures
    → HasSeries (send_email_alert outcome is_recovery w).0
unfolding send_email_alert
send_email_alert-HasSeries sent is_recovery w s f =
    (kind-IsSent email is_recovery w.alerts_sent s, f)
send_email_alert-HasSeries os_error is_recovery w s f = (s, f)
send_email_alert-HasSeries smtp_other is_recovery w s f = (s, f)

send_webhook_alert-HasSeries :
    (outcome : PostOutcome) (is_recovery : Bool) (w : Worker)
    → All IsSent w.alerts_sent
    → All IsFailure w.delivery_failures
    → HasSeries (send_webhook_alert outcome is_recovery w).0
unfolding send_webhook_alert
send_webhook_alert-HasSeries (response status) is_recovery w s f = ground (
  arith,
  kind-IsSent webhook is_recovery w.alerts_sent s,
  All-append IsFailure w.delivery_failures ((text "webhook", text "rejected") ∷ []) f (refl, tt),
)
send_webhook_alert-HasSeries request_error is_recovery w s f = (s, f)
send_webhook_alert-HasSeries post_other is_recovery w s f = (s, f)

count_alert_retry-HasSeries :
    (name : Text) (w : Worker)
    → All IsSent w.alerts_sent
    → All IsFailure w.delivery_failures
    → HasSeries (count_alert_retry (channel_by_task name) w)
unfolding count_alert_retry
count_alert_retry-HasSeries name w s f = elim (Option-cases (channel_by_task name)) [
  | inl e ↦ rw e (s, f)
  | inr (channel, e) ↦ rw e (
    s,
    (channel-IsFailure channel w.delivery_failures (channel_by_task_cases name channel e) f).0,
  )
]

handle_alert_exhausted-HasSeries :
    (name : Text) (args : Option AlertTask) (w : Worker)
    → All IsSent w.alerts_sent
    → All IsFailure w.delivery_failures
    → HasSeries (handle_alert_exhausted (channel_by_task name) args w)
unfolding handle_alert_exhausted
handle_alert_exhausted-HasSeries name args w s f = elim (Option-cases (channel_by_task name)) [
  | inl e ↦ rw e (s, f)
  | inr (channel, e) ↦
      let counted =
        (channel-IsFailure channel w.delivery_failures (channel_by_task_cases name channel e)
          f).1 in
      ground arith
]

handle_event-Declared : (e : Event) (p : Process) → Declared p → Declared (handle_event e p)
unfolding handle_event
handle_event-Declared (check run) p d = record {
  checks = perform_check-IsOutcome run p.world d.checks;
  queued = perform_check-IsQueued run p.world d.queued;
  sent = d.sent;
  failures = d.failures;
}
handle_event-Declared (email_attempt outcome is_recovery) p d =
    alerts-Declared p _ d
      (send_email_alert-HasSeries outcome is_recovery (alerts_of p) d.sent d.failures)
handle_event-Declared (webhook_attempt outcome is_recovery) p d =
    alerts-Declared p _ d
      (send_webhook_alert-HasSeries outcome is_recovery (alerts_of p) d.sent d.failures)
handle_event-Declared (task_retry name) p d =
    alerts-Declared p _ d (count_alert_retry-HasSeries name (alerts_of p) d.sent d.failures)
handle_event-Declared (task_failure name args) p d =
    alerts-Declared p _ d
      (handle_alert_exhausted-HasSeries name args (alerts_of p) d.sent d.failures)

-- Whatever checks, deliveries and signals a worker goes through, in whatever order and with
-- whatever outcomes, each label set that it counts under has a series that was made up front.
pub handle_events-Declared :
    (events : List Event) (p : Process) → Declared p → Declared (handle_events events p)
unfolding handle_events
handle_events-Declared [] p d = d
handle_events-Declared (e ∷ es) p d =
    handle_events-Declared es (handle_event e p) (handle_event-Declared e p d)
