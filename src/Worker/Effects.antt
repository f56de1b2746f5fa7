-- ===== src/Worker/Effects.antt =====
-- app/dispatcher.py with app/alerts.py: what one event of a worker does to one configuration.
use mathlib.Core.List.{map-append}
use monitoring_service.Prelude.{
  ℕ, ◌≡◌, ◌≢◌, inl, inr, refl, ap, ◌∙◌, Bool, true, false, not, ◌&&◌, Option, none, some, List, [],
  ◌∷◌, ◌++◌, map, arith, ◌==◌, ==_iff, Bool-cases, Option-cases, if◌then◌else◌,
}
use monitoring_service.Prelude.Text.{Text}
use monitoring_service.Model.{Endpoint, AlertConfig, AlertState, Database, state_of_config}
use monitoring_service.Dispatcher.{World, CheckRun}
use monitoring_service.Dispatcher.Alerting.{AlertTask}
use monitoring_service.Dispatcher.Progress.{progress, queued_for}
use monitoring_service.Dispatcher.History.{to_list}
use monitoring_service.Dispatcher.Runs.{attempted, react, IsWatched, queued_for-perform_check}
use monitoring_service.Dispatcher.Outages.{kinds_for, kinds-tasks_of}
use monitoring_service.Alerts.{
  mark_alert_undelivered, handle_alert_exhausted, send_email_alert, send_webhook_alert,
  count_alert_retry, SmtpOutcome, PostOutcome, sent, os_error, smtp_other, response, request_error,
  post_other,
}
use monitoring_service.Alerts.Undelivered.{
  cleared, state_of_config-cleared, state_of_config-cleared_ne,
}
use monitoring_service.Worker.{
  Process, check, email_attempt, webhook_attempt, task_retry, task_failure, channel_by_task,
  handle_event,
}

abbrev pub is_known : Option Text → Bool
is_known none = false
is_known (some channel) = true

-- The failure of a task that delivers a down alert of the configuration.
abbrev pub gives_up : ℕ → Text → AlertTask → Bool
gives_up c name task =
    is_known (channel_by_task name) && (not task.is_recovery && task.config_id == c)

state_of_config-cleared-none :
    (c : ℕ) (states : List AlertState)
    → state_of_config c states ≡ none
    → state_of_config c (cleared c states) ≡ none
state_of_config-cleared-none c [] h = refl
state_of_config-cleared-none c (x ∷ states) h =
    ground (arith, state_of_config-cleared-none c states)

progress-cleared :
    (c : ℕ) (db : Database)
    → progress c (record db { states = cleared c db.states }) ≡ ((progress c db).0, false)
progress-cleared c db = elim (Option-cases (state_of_config c db.states)) [
  | inl e ↦ ground (arith, state_of_config-cleared-none c db.states e)
  | inr (s, e) ↦ ground (arith, state_of_config-cleared c db.states s e)
]

progress-undelivered :
    (c i : ℕ) (db : Database)
    → progress c (mark_alert_undelivered i db)
      ≡ (if i == c then ((progress c db).0, false) else progress c db)
unfolding mark_alert_undelivered
progress-undelivered c i db = elim (Bool-cases (i == c)) [
  | inl same ↦ let e = (==_iff i c).0 same in rw (same, e) (progress-cleared c db)
  | inr other ↦
      let n : i ≢ c = ground arith in
      rw other (
        ap
          (λ (o : Option AlertState). elim o [
            | none ↦ (0, false)
            | some s ↦ (s.current_streak, s.alert_sent)
          ])
          (state_of_config-cleared_ne i c db.states n))
]

pub world-task_failure :
    (name : Text) (task : AlertTask) (p : Process)
    → (handle_event (task_failure name (some task)) p).world ≡ (
        if is_known (channel_by_task name) && not task.is_recovery
        then record p.world { db = mark_alert_undelivered task.config_id p.world.db }
        else p.world)
unfolding handle_event handle_alert_exhausted
world-task_failure name task p = elim (Option-cases (channel_by_task name)) [
  | inl e ↦ rw e refl
  | inr (channel, e) ↦ rw e (ground arith)
]

pub world-task_failure_empty :
    (name : Text) (p : Process) → (handle_event (task_failure name none) p).world ≡ p.world
unfolding handle_event handle_alert_exhausted
world-task_failure_empty name p = elim (Option-cases (channel_by_task name)) [
  | inl e ↦ rw e refl
  | inr (channel, e) ↦ rw e refl
]

-- The tasks that deliver alerts, and the signal of a retry, leave the database and the queue alone.
pub world-email_attempt :
    (o : SmtpOutcome) (k : Bool) (p : Process)
    → (handle_event (email_attempt o k) p).world ≡ p.world
unfolding handle_event send_email_alert
world-email_attempt sent k p = refl
world-email_attempt os_error k p = refl
world-email_attempt smtp_other k p = refl

pub world-webhook_attempt :
    (o : PostOutcome) (k : Bool) (p : Process)
    → (handle_event (webhook_attempt o k) p).world ≡ p.world
unfolding handle_event send_webhook_alert
world-webhook_attempt (response status) k p = ground arith
world-webhook_attempt request_error k p = refl
world-webhook_attempt post_other k p = refl

pub world-task_retry :
    (name : Text) (p : Process) → (handle_event (task_retry name) p).world ≡ p.world
unfolding handle_event count_alert_retry
world-task_retry name p = elim (Option-cases (channel_by_task name)) [
  | inl e ↦ rw e refl
  | inr (channel, e) ↦ rw e refl
]

module _ (row : AlertConfig) (owner : Endpoint) where
  abbrev pub before : Process → ℕ × Bool
  before p = progress row.id p.world.db

  -- The failure of a delivery clears the flag and keeps the streak.
  pub progress-task_failure :
      (name : Text) (task : AlertTask) (p : Process)
      → before (handle_event (task_failure name (some task)) p)
        ≡ (if gives_up row.id name task then ((before p).0, false) else before p)
  progress-task_failure name task p =
      ap (λ (w : World). progress row.id w.db) (world-task_failure name task p)
      ∙ ground (arith, progress-undelivered row.id task.config_id p.world.db)

  pub kinds-task_failure :
      (name : Text) (task : AlertTask) (p : Process)
      → kinds_for row.id (handle_event (task_failure name (some task)) p).world
        ≡ kinds_for row.id p.world
  kinds-task_failure name task p =
      ap (kinds_for row.id) (world-task_failure name task p) ∙ ground arith

  pub IsWatched-task_failure :
      (name : Text) (task : AlertTask) (p : Process)
      → IsWatched row owner p.world.db
      → IsWatched row owner (handle_event (task_failure name (some task)) p).world.db
  unfolding mark_alert_undelivered
  IsWatched-task_failure name task p h =
      elim (Bool-cases (is_known (channel_by_task name) && not task.is_recovery)) [
        | inl e ↦
            rw (world-task_failure name task p, e)
              (record {
                distinct = h.distinct;
                stored = h.stored;
                active = h.active;
                owned = h.owned;
              })
        | inr e ↦ rw (world-task_failure name task p, e) h
      ]

  pub kinds-check :
      (run : CheckRun) (p : Process)
      → IsWatched row owner p.world.db
      → kinds_for row.id (handle_event (check run) p).world
        ≡ kinds_for row.id p.world
          ++ to_list (react row owner (attempted row.endpoint_id run) (before p)).1
  unfolding handle_event
  kinds-check run p watched =
      ap (map (λ (t : AlertTask). t.is_recovery))
        (queued_for-perform_check row owner run p.world watched)
      ∙ map-append (λ (t : AlertTask). t.is_recovery) (queued_for row.id p.world) _
      ∙ rw kinds-tasks_of refl
