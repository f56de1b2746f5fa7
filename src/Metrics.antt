-- ===== src/Metrics.antt =====
-- app/worker_metrics.py: the series of the worker's labelled counters.
pub mod Counted
pub mod Declared
mod Examples
use monitoring_service.Prelude.{
  Bool, true, false, ◌&&◌, Option, none, some, List, [], ◌∷◌, ◌++◌, if◌then◌else◌,
}
use monitoring_service.Prelude.Text.{Text, text, text_eq}
use monitoring_service.Prelude.Tables.{any_where}
use monitoring_service.Dispatcher.{CheckRun, World, perform_check}
use monitoring_service.Dispatcher.Alerting.{AlertTask}
use monitoring_service.Alerts.{
  Worker, AttemptEnd, SmtpOutcome, PostOutcome, send_email_alert, send_webhook_alert,
  count_alert_retry, handle_alert_exhausted,
}

-- The label sets of CHECKS, ALERTS_QUEUED, ALERTS_SENT and ALERT_DELIVERY_FAILURES that have a series.
pub record Registry : Type 0 where
  pub checks : List Text
  pub alerts_queued : List (Text × Text)
  pub alerts_sent : List (Text × Text)
  pub delivery_failures : List (Text × Text)

abbrev pub pair_eq : Text × Text → Text × Text → Bool
pair_eq a b = text_eq a.0 b.0 && text_eq a.1 b.1

-- `labels`: the series with these labels, made where it is missing.
abbrev labels : {A : Type 0} → (A → A → Bool) → A → List A → List A
labels same l series = if any_where (same l) series then series else series ++ l ∷ []

abbrev pub check_outcomes : List Text
check_outcomes =
    text "up"
    ∷ text "http_error"
    ∷ text "timeout"
    ∷ text "connection_refused"
    ∷ text "dns_failure"
    ∷ text "connect_error"
    ∷ text "unknown"
    ∷ []

-- for _outcome in CHECK_OUTCOMES
abbrev for_outcomes : List Text → Registry → Registry
for_outcomes [] r = r
for_outcomes (outcome ∷ outcomes) r =
    for_outcomes outcomes (record r { checks = labels text_eq outcome r.checks })

-- for _kind in ("down", "recovery")
abbrev for_kinds : Text → List Text → Registry → Registry
for_kinds channel [] r = r
for_kinds channel (kind ∷ kinds) r = for_kinds channel kinds (record r {
  alerts_queued = labels pair_eq (channel, kind) r.alerts_queued;
  alerts_sent = labels pair_eq (channel, kind) r.alerts_sent;
})

-- for _reason in ("retry", "exhausted", "rejected")
abbrev for_reasons : Text → List Text → Registry → Registry
for_reasons channel [] r = r
for_reasons channel (reason ∷ reasons) r =
    for_reasons channel reasons
      (record r { delivery_failures = labels pair_eq (channel, reason) r.delivery_failures })

-- for _channel in ("email", "webhook")
abbrev for_channels : List Text → Registry → Registry
for_channels [] r = r
for_channels (channel ∷ channels) r = for_channels channels (
    for_reasons channel (text "retry" ∷ text "exhausted" ∷ text "rejected" ∷ [])
      (for_kinds channel (text "down" ∷ text "recovery" ∷ []) r))

-- The series when the module has been loaded.
abbrev pub up_front : Registry
up_front = for_channels (text "email" ∷ text "webhook" ∷ []) (
    for_outcomes check_outcomes
      (record { checks = []; alerts_queued = []; alerts_sent = []; delivery_failures = [] }))
