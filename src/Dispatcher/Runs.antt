-- ===== src/Dispatcher/Runs.antt =====
-- Sequences of `perform_check` runs, of any endpoints, against the history of one configuration.
use mathlib.Core.List.{append-nil}
use monitoring_service.Prelude.{
  ℕ, ◌≡◌, ◌≢◌, ◌⊎◌, inl, inr, ◌∙◌, ap, ◌++◌, Option-cases, Bool-cases, Bool, true, ◌&&◌, Option,
  none, some, List, [], ◌∷◌, arith, ◌==◌, if◌then◌else◌,
}
use monitoring_service.Prelude.Tables.{select}
use monitoring_service.Model.{Endpoint, AlertConfig, Database, endpoint_by_id}
use monitoring_service.Dispatcher.{World, CheckRun, done, perform_check, alert_rows, add_result}
use monitoring_service.Dispatcher.Probe.{Measurement, probe, is_up_for}
use monitoring_service.Dispatcher.Alerting.{AlertTask}
use monitoring_service.Dispatcher.Progress.{progress, advance, queued_for, tasks_of}
use monitoring_service.Dispatcher.Rows.{
  DistinctIds, DistinctIds-select, config_by_id, config_by_id-select, config_by_id-select_reject,
  progress-handle_rows, queued_for-handle_rows,
}
use monitoring_service.Dispatcher.Frame.{
  queued-perform_check, queued-perform_check_failed, perform_check_not_done, perform_check_done,
  perform_check-cases, perform_check-SameSettings,
}

unfoldable pub run_checks : List CheckRun → World → World
run_checks [] w = w
run_checks (run ∷ runs) w = run_checks runs (perform_check run w).0

-- The outcome that a run for the endpoint `i` finds; a run for another endpoint, or one whose
-- request ends in an exception that is not caught, finds none.
unfoldable pub attempted : ℕ → CheckRun → Option Bool
attempted i run = elim (probe run.outcome) [
  | none ↦ none
  | some m ↦ if run.endpoint_id == i then some (is_up_for m.status_code) else none
]

-- The outcome that it commits: no other belongs to the endpoint's history.
unfoldable pub measured : ℕ → CheckRun → Option Bool
measured i run = if run.commits then attempted i run else none

abbrev pub extend : Option Bool → List Bool → List Bool
extend none h = h
extend (some up) h = up ∷ h

-- The history after more runs.
unfoldable pub history : ℕ → List CheckRun → List Bool → List Bool
history i [] h = h
history i (run ∷ runs) h = history i runs (extend (measured i run) h)

loop-cases :
    (run : CheckRun) (w : World)
    → ((probe run.outcome ≡ none) ⊎ (endpoint_by_id run.endpoint_id w.db ≡ none))
      ⊎ ((m : Measurement) × (owner : Endpoint) × (probe run.outcome ≡ some m)
          × (endpoint_by_id run.endpoint_id w.db ≡ some owner))
loop-cases run w = elim (Option-cases (probe run.outcome)) [
  | inl raised ↦ inl (inl raised)
  | inr (m, p) ↦ elim (Option-cases (endpoint_by_id run.endpoint_id w.db)) [
    | inl gone ↦ inl (inr gone)
    | inr (owner, o) ↦ inr (m, owner, p, o)
  ]
]

-- `row` is an active configuration of an endpoint that exists, and keys are unique.
pub record IsWatched (row : AlertConfig) (owner : Endpoint) (db : Database) : Type 0 where
  pub distinct : DistinctIds db.configs
  pub stored : config_by_id row.id db.configs ≡ some row
  pub active : row.is_active ≡ true
  pub owned : endpoint_by_id row.endpoint_id db ≡ some owner

module _ (row : AlertConfig) (owner : Endpoint) where
  pub IsWatched-perform_check :
      (run : CheckRun) (w : World)
      → IsWatched row owner w.db
      → IsWatched row owner (perform_check run w).0.db
  IsWatched-perform_check run w h =
      let s = perform_check-SameSettings run w in
      record {
        distinct = rw s.configs h.distinct;
        stored = rw s.configs h.stored;
        active = h.active;
        owned = rw s.endpoints h.owned;
      }

  -- the loop of a check has the row exactly if the check is of its endpoint
  config_by_id-alert_rows :
      (i : ℕ) (db : Database)
      → IsWatched row owner db
      → config_by_id row.id (alert_rows i db) ≡ (if i == row.endpoint_id then some row else none)
  config_by_id-alert_rows i db h = elim (Bool-cases (i == row.endpoint_id)) [
    | inl own ↦
        rw own (config_by_id-select row.id _ db.configs row h.stored (ground (arith, h.active)))
    | inr other ↦
        rw other
          (config_by_id-select_reject row.id _ db.configs row h.distinct h.stored (ground arith))
  ]

  -- A run that does not end normally measures nothing for an endpoint that exists.
  measured-not_done :
      (run : CheckRun) (w : World)
      → IsWatched row owner w.db
      → (perform_check run w).1 ≢ done
      → measured row.endpoint_id run ≡ none
  unfolding measured attempted
  measured-not_done run w h not_done = elim (Option-cases (probe run.outcome)) [
    | inl raised ↦ ground arith
    | inr (m, p) ↦ elim (Bool-cases (run.endpoint_id == row.endpoint_id && run.commits)) [
      | inl both ↦
          absurd (
            not_done
              (perform_check_done run w m owner p (ground (arith, h.owned)) (ground arith)).1)
      | inr some_not ↦ ground arith
    ]
  ]

  attempted_lem :
      (run : CheckRun) (m : Measurement)
      → probe run.outcome ≡ some m
      → attempted row.endpoint_id run
        ≡ (if run.endpoint_id == row.endpoint_id then some (is_up_for m.status_code) else none)
  unfolding attempted
  attempted_lem run m p = ground arith

  pub measured-done :
      (run : CheckRun)
      → run.commits ≡ true
      → measured row.endpoint_id run ≡ attempted row.endpoint_id run
  unfolding measured
  measured-done run c = ground arith

  -- a request that raises, or an endpoint that is gone, is no attempt for an endpoint that exists
  attempted-failed :
      (run : CheckRun) (w : World)
      → IsWatched row owner w.db
      → (probe run.outcome ≡ none) ⊎ (endpoint_by_id run.endpoint_id w.db ≡ none)
      → attempted row.endpoint_id run ≡ none
  unfolding attempted
  attempted-failed run w h failure = ground (arith, h.owned)

  abbrev pub react : Option Bool → ℕ × Bool → (ℕ × Bool) × Option Bool
  react none before = (before, none)
  react (some up) before = advance up row.threshold before

  -- One run moves the configuration's state by the outcome that it measures, if it measures one.
  pub progress-perform_check :
      (run : CheckRun) (w : World)
      → IsWatched row owner w.db
      → progress row.id (perform_check run w).0.db
        ≡ (react (measured row.endpoint_id run) (progress row.id w.db)).0
  unfolding add_result
  progress-perform_check run w h = elim (perform_check-cases run w) [
    | inl not_done ↦
        rw (measured-not_done run w h not_done)
          (ap (progress row.id) (perform_check_not_done run w not_done))
    | inr (m, o, p, found, c) ↦
        rw (measured-done run c, attempted_lem run m p)
          (ap (progress row.id) (perform_check_done run w m o p found c).0
            ∙ progress-handle_rows (is_up_for m.status_code) run row.id
                (alert_rows run.endpoint_id w.db) _ (DistinctIds-select _ w.db.configs h.distinct)
            ∙ rw (config_by_id-alert_rows run.endpoint_id w.db h) (ground arith))
  ]

  -- A run queues what the outcome that it finds calls for, committed or not.
  pub queued_for-perform_check :
      (run : CheckRun) (w : World)
      → IsWatched row owner w.db
      → queued_for row.id (perform_check run w).0
        ≡ queued_for row.id w
          ++ tasks_of (react (attempted row.endpoint_id run) (progress row.id w.db)).1 run row
  unfolding add_result
  queued_for-perform_check run w h = elim (loop-cases run w) [
    | inl failure ↦ rw (attempted-failed run w h failure) (
        rw (append-nil (queued_for row.id w)) (
          ap (select (λ (t : AlertTask). t.config_id == row.id))
            (queued-perform_check_failed run w failure)))
    | inr (m, o, p, found) ↦ rw (attempted_lem run m p) (
        ap (select (λ (t : AlertTask). t.config_id == row.id))
          (queued-perform_check run w m o p found)
        ∙ queued_for-handle_rows (is_up_for m.status_code) run row.id
            (alert_rows run.endpoint_id w.db) _ (DistinctIds-select _ w.db.configs h.distinct)
        ∙ rw (config_by_id-alert_rows run.endpoint_id w.db h) (ground arith))
  ]
