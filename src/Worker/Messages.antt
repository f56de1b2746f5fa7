-- ===== src/Worker/Messages.antt =====
-- app/dispatcher.py with app/alerts.py: one configuration's state and messages over what a worker
-- goes through.
use mathlib.Core.List.{append-nil}
use monitoring_service.Prelude.{
  ◌+◌, ◌≤◌, ◌≡◌, inl, inr, refl, sym, ap, ◌∙◌, Bool, true, false, Option, none, some, List, [], ◌∷◌,
  ◌++◌, All, Bool-cases,
}
use monitoring_service.Prelude.Text.{Text}
use monitoring_service.Model.{Endpoint, AlertConfig}
use monitoring_service.Dispatcher.{CheckRun}
use monitoring_service.Dispatcher.Alerting.{AlertTask}
use monitoring_service.Dispatcher.Progress.{progress}
use monitoring_service.Dispatcher.History.{to_list}
use monitoring_service.Dispatcher.Runs.{
  attempted, measured, measured-done, react, IsWatched, IsWatched-perform_check,
  progress-perform_check,
}
use monitoring_service.Dispatcher.Outages.{kinds_for}
use monitoring_service.Worker.{
  Process, Event, check, email_attempt, webhook_attempt, task_retry, task_failure, handle_event,
  handle_events,
}
use monitoring_service.Worker.History.{
  Mark, described, message_of, messages_of, advance-described, described-gave_up, described_fresh,
  messages_of_bounds, recoveries, downs, open_alerts, give_ups,
}
use monitoring_service.Worker.Effects.{
  gives_up, world-task_failure_empty, world-email_attempt, world-webhook_attempt, world-task_retry,
  progress-task_failure, kinds-task_failure, IsWatched-task_failure, kinds-check,
}
use monitoring_service.Worker.Marks.{outcome_mark, mark_of, add_mark, marks, Commits}

module _ (row : AlertConfig) (owner : Endpoint) where
  -- What holds of a process whose configuration a history describes.
  pub record Follows (h : List Mark) (p : Process) : Type 0 where
    pub watched : IsWatched row owner p.world.db
    pub state : progress row.id p.world.db ≡ described row.threshold h

  react-described :
      (o : Option Bool) (h : List Mark)
      → ((react row owner o (described row.threshold h)).0
          ≡ described row.threshold (add_mark (outcome_mark o) h))
        × (messages_of row.threshold h ++ to_list (react row owner o (described row.threshold h)).1
            ≡ messages_of row.threshold (add_mark (outcome_mark o) h))
  unfolding messages_of
  react-described none h = (refl, append-nil (messages_of row.threshold h))
  react-described (some up) h = rw (advance-described row.threshold h up) (refl, refl)

  Follows-check :
      (run : CheckRun) (h : List Mark) (p : Process)
      → Follows h p
      → Follows (add_mark (mark_of row (check run)) h) (handle_event (check run) p)
  unfolding handle_event mark_of
  Follows-check run h p f = record {
    watched = IsWatched-perform_check row owner run p.world f.watched;
    state =
        progress-perform_check row owner run p.world f.watched
        ∙ rw f.state (react-described (measured row.endpoint_id run) h).0;
  }

  messages-check :
      (run : CheckRun) (h : List Mark) (p : Process)
      → run.commits ≡ true
      → Follows h p
      → kinds_for row.id p.world ≡ messages_of row.threshold h
      → kinds_for row.id (handle_event (check run) p).world
        ≡ messages_of row.threshold (add_mark (mark_of row (check run)) h)
  unfolding mark_of
  messages-check run h p c f q =
      kinds-check row owner run p f.watched
      ∙ rw (q, f.state, measured-done row owner run c)
          (react-described (attempted row.endpoint_id run) h).1

  Follows-same : (h : List Mark) (p q : Process) → q.world ≡ p.world → Follows h p → Follows h q
  Follows-same h p q e f = record { watched = rw e f.watched; state = rw e f.state }

  Follows-task_failure :
      (name : Text) (task : AlertTask) (h : List Mark) (p : Process)
      → Follows h p
      → Follows
          (add_mark (mark_of row (task_failure name (some task))) h)
          (handle_event (task_failure name (some task)) p)
  unfolding mark_of
  Follows-task_failure name task h p f = elim (Bool-cases (gives_up row.id name task)) [
    | inl e ↦ record {
      watched = IsWatched-task_failure row owner name task p f.watched;
      state =
          progress-task_failure row owner name task p
          ∙ rw (e, f.state) (sym (described-gave_up row.threshold h));
    }
    | inr e ↦ record {
      watched = IsWatched-task_failure row owner name task p f.watched;
      state = progress-task_failure row owner name task p ∙ rw e f.state;
    }
  ]

  Follows-handle_event :
      (e : Event) (h : List Mark) (p : Process)
      → Follows h p
      → Follows (add_mark (mark_of row e) h) (handle_event e p)
  unfolding mark_of
  Follows-handle_event (check run) h p f = Follows-check run h p f
  Follows-handle_event (email_attempt o k) h p f =
      Follows-same h p (handle_event (email_attempt o k) p) (world-email_attempt o k p) f
  Follows-handle_event (webhook_attempt o k) h p f =
      Follows-same h p (handle_event (webhook_attempt o k) p) (world-webhook_attempt o k p) f
  Follows-handle_event (task_retry name) h p f =
      Follows-same h p (handle_event (task_retry name) p) (world-task_retry name p) f
  Follows-handle_event (task_failure name none) h p f =
      Follows-same h p (handle_event (task_failure name none) p) (world-task_failure_empty name p) f
  Follows-handle_event (task_failure name (some task)) h p f = Follows-task_failure name task h p f

  messages-task_failure :
      (name : Text) (task : AlertTask) (h : List Mark)
      → messages_of row.threshold (add_mark (mark_of row (task_failure name (some task))) h)
        ≡ messages_of row.threshold h
  unfolding mark_of messages_of message_of
  messages-task_failure name task h = elim (Bool-cases (gives_up row.id name task)) [
    | inl e ↦ rw e (append-nil (messages_of row.threshold h))
    | inr e ↦ rw e refl
  ]

  messages-handle_event :
      (e : Event) (h : List Mark) (p : Process)
      → Commits e
      → Follows h p
      → kinds_for row.id p.world ≡ messages_of row.threshold h
      → kinds_for row.id (handle_event e p).world
        ≡ messages_of row.threshold (add_mark (mark_of row e) h)
  unfolding mark_of
  messages-handle_event (check run) h p c f q = messages-check run h p c f q
  messages-handle_event (email_attempt o k) h p c f q =
      ap (kinds_for row.id) (world-email_attempt o k p) ∙ q
  messages-handle_event (webhook_attempt o k) h p c f q =
      ap (kinds_for row.id) (world-webhook_attempt o k p) ∙ q
  messages-handle_event (task_retry name) h p c f q =
      ap (kinds_for row.id) (world-task_retry name p) ∙ q
  messages-handle_event (task_failure name none) h p c f q =
      ap (kinds_for row.id) (world-task_failure_empty name p) ∙ q
  messages-handle_event (task_failure name (some task)) h p c f q =
      kinds-task_failure row owner name task p ∙ q ∙ sym (messages-task_failure name task h)

  Follows-handle_events :
      (es : List Event) (h : List Mark) (p : Process)
      → Follows h p
      → Follows (marks row es h) (handle_events es p)
  unfolding handle_events marks
  Follows-handle_events [] h p f = f
  Follows-handle_events (e ∷ es) h p f =
      Follows-handle_events es (add_mark (mark_of row e) h) (handle_event e p)
        (Follows-handle_event e h p f)

  -- From a stored state that a history describes, whatever checks, deliveries and signals a worker goes
  -- through, in whatever order, committed or not: the stored streak of an active configuration is
  -- the number of committed checks in a row of its endpoint that failed, and the stored flag says
  -- whether they reach the threshold and one of them came after the last down alert for it that was
  -- given up.
  pub progress-handle_events :
      (es : List Event) (h : List Mark) (p : Process)
      → IsWatched row owner p.world.db
      → progress row.id p.world.db ≡ described row.threshold h
      → progress row.id (handle_events es p).world.db ≡ described row.threshold (marks row es h)
  progress-handle_events es h p watched e =
      (Follows-handle_events es h p (record { watched = watched; state = e })).state

  messages-handle_events :
      (es : List Event) (h : List Mark) (p : Process)
      → All Commits es
      → Follows h p
      → kinds_for row.id p.world ≡ messages_of row.threshold h
      → kinds_for row.id (handle_events es p).world ≡ messages_of row.threshold (marks row es h)
  unfolding handle_events marks
  messages-handle_events [] h p c f q = q
  messages-handle_events (e ∷ es) h p c f q =
      messages-handle_events es (add_mark (mark_of row e) h) (handle_event e p) c.1
        (Follows-handle_event e h p f) (messages-handle_event e h p c.0 f q)

  -- From a stored state and queued messages that a history describes, where commits succeed: the
  -- messages that are queued for an active configuration are those that the history calls for: a
  -- recovery at a success that ends a flagged outage, a down alert at the failure in a row that
  -- reaches the threshold and at the first failure past it after a down alert was given up, and
  -- nothing else.
  pub kinds-handle_events :
      (es : List Event) (h : List Mark) (p : Process)
      → All Commits es
      → IsWatched row owner p.world.db
      → progress row.id p.world.db ≡ described row.threshold h
      → kinds_for row.id p.world ≡ messages_of row.threshold h
      → kinds_for row.id (handle_events es p).world ≡ messages_of row.threshold (marks row es h)
  kinds-handle_events es h p c watched e q =
      messages-handle_events es h p c (record { watched = watched; state = e }) q

  -- From a fresh configuration, where commits succeed: every recovery that is queued answers a down
  -- alert before it, one more alert has been queued where the flag is set, and any further ones are
  -- at most as many as were given up.
  pub handle_events_bounds :
      (es : List Event) (p : Process)
      → All Commits es
      → IsWatched row owner p.world.db
      → progress row.id p.world.db ≡ (0, false)
      → kinds_for row.id p.world ≡ []
      → (recoveries (kinds_for row.id (handle_events es p).world)
            + open_alerts (progress row.id (handle_events es p).world.db).1
          ≤ downs (kinds_for row.id (handle_events es p).world))
        × (downs (kinds_for row.id (handle_events es p).world)
            ≤ recoveries (kinds_for row.id (handle_events es p).world)
              + open_alerts (progress row.id (handle_events es p).world.db).1
              + give_ups (marks row es []))
  unfolding messages_of
  handle_events_bounds es p c watched e q =
      let fresh = e ∙ sym (described_fresh row.threshold) in
      rw
        (
          kinds-handle_events es [] p c watched fresh q,
          progress-handle_events es [] p watched fresh,
        )
        (messages_of_bounds row.threshold (marks row es []))
