-- ===== src/Worker/Marks.antt =====
-- app/dispatcher.py with app/alerts.py: what a worker's events add to the history of a configuration.
use monitoring_service.Prelude.{◌≡◌, Bool, true, Option, none, some, List, [], ◌∷◌, if◌then◌else◌}
use monitoring_service.Model.{AlertConfig}
use monitoring_service.Dispatcher.Runs.{measured}
use monitoring_service.Worker.{
  Event, check, email_attempt, webhook_attempt, task_retry, task_failure,
}
use monitoring_service.Worker.History.{Mark, outcome, gave_up}
use monitoring_service.Worker.Effects.{gives_up}

abbrev pub outcome_mark : Option Bool → Option Mark
outcome_mark none = none
outcome_mark (some up) = some (outcome up)

-- What an event adds to the history of a configuration.
unfoldable pub mark_of : AlertConfig → Event → Option Mark
mark_of row (check run) = outcome_mark (measured row.endpoint_id run)
mark_of row (task_failure name (some task)) =
    if gives_up row.id name task then some gave_up else none
mark_of row (task_failure name none) = none
mark_of row (email_attempt o is_recovery) = none
mark_of row (webhook_attempt o is_recovery) = none
mark_of row (task_retry name) = none

abbrev pub add_mark : Option Mark → List Mark → List Mark
add_mark none h = h
add_mark (some m) h = m ∷ h

unfoldable pub marks : AlertConfig → List Event → List Mark → List Mark
marks row [] h = h
marks row (e ∷ es) h = marks row es (add_mark (mark_of row e) h)

-- No commit of a check fails.
abbrev pub Commits : Event → Type 0
Commits (check run) = run.commits ≡ true
Commits _ = Unit
