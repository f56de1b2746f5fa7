-- ===== src/Worker/Exhausted.antt =====
-- app/alerts.py, `handle_alert_exhausted`, followed by a check of app/dispatcher.py.
use monitoring_service.Prelude.{
  ℕ, ◌+◌, ◌≡◌, ◌∙◌, refl, Bool, true, false, some, List, [], ◌∷◌, ◌++◌, arith, ==_refl,
  if◌then◌else◌,
}
use monitoring_service.Prelude.Text.{Text}
use monitoring_service.Model.{Endpoint, AlertConfig}
use monitoring_service.Model.Int.{leb_ℤ}
use monitoring_service.Dispatcher.{CheckRun}
use monitoring_service.Dispatcher.Alerting.{AlertTask}
use monitoring_service.Dispatcher.Progress.{advance}
use monitoring_service.Dispatcher.History.{to_list}
use monitoring_service.Dispatcher.Runs.{attempted, IsWatched}
use monitoring_service.Dispatcher.Outages.{kinds_for}
use monitoring_service.Worker.{
  Process, check, task_failure, channel_by_task, handle_event, handle_events,
}
use monitoring_service.Worker.Effects.{
  gives_up, before, progress-task_failure, kinds-task_failure, IsWatched-task_failure, kinds-check,
}

-- What a check queues for a configuration whose flag is clear.
abbrev unflagged_messages : AlertConfig → ℕ → Bool → List Bool
unflagged_messages row streak up =
    if up then [] else if leb_ℤ row.threshold (streak + 1) then false ∷ [] else []

advance_unflagged :
    (row : AlertConfig) (streak : ℕ) (up : Bool)
    → to_list (advance up row.threshold (streak, false)).1 ≡ unflagged_messages row streak up
unfolding advance
advance_unflagged row streak true = refl
advance_unflagged row streak false = ground arith

gives_up_own :
    (row : AlertConfig) (name channel : Text) (task : AlertTask)
    → channel_by_task name ≡ some channel
    → task.is_recovery ≡ false
    → task.config_id ≡ row.id
    → gives_up row.id name task ≡ true
gives_up_own row name channel task k r c = rw (k, r, c) (==_refl row.id)

module _ (row : AlertConfig) (owner : Endpoint) where
  -- When a down alert for a configuration has used up its attempts, whatever outage it was for, the
  -- next check of the endpoint queues no recovery if it succeeds, and a down alert again if it fails
  -- at or above the threshold.
  pub exhausted_then_check :
      (name channel : Text) (task : AlertTask) (run : CheckRun) (up : Bool) (p : Process)
      → channel_by_task name ≡ some channel
      → task.is_recovery ≡ false
      → task.config_id ≡ row.id
      → IsWatched row owner p.world.db
      → attempted row.endpoint_id run ≡ some up
      → kinds_for row.id (handle_events (task_failure name (some task) ∷ check run ∷ []) p).world
        ≡ kinds_for row.id p.world
          ++ (if up
              then []
              else if leb_ℤ row.threshold ((before row owner p).0 + 1)
              then false ∷ []
              else [])
  unfolding handle_events
  exhausted_then_check name channel task run up p k r c watched found =
      kinds-check row owner run (handle_event (task_failure name (some task)) p)
        (IsWatched-task_failure row owner name task p watched)
      ∙ rw
          (
            kinds-task_failure row owner name task p,
            progress-task_failure row owner name task p,
            gives_up_own row name channel task k r c,
            found,
            advance_unflagged row (before row owner p).0 up,
          )
          refl
