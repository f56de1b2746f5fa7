-- ===== src/Metrics/Counted.antt =====
-- app/dispatcher.py with app/worker_metrics.py: the labels that a check counts under.
use monitoring_service.Prelude.{
  ◌≡◌, ◌∙◌, refl, Bool, true, false, Option, none, some, List, [], ◌∷◌, ◌++◌, arith, All, ◌⊎◌, inl,
  inr, Option-cases, Bool-cases,
}
use monitoring_service.Prelude.Text.{Text, text, text_eq}
use monitoring_service.Prelude.Tables.{any_where, All-append}
use monitoring_service.Model.{
  AlertChannel, AlertConfig, email, webhook, channel_value, CheckError, timeout, dns_failure,
  connection_refused, connect_error, unknown, error_text, endpoint_by_id,
}
use monitoring_service.Dispatcher.Probe.{probe, is_up_for, Measurement, outcome_label}
use monitoring_service.Dispatcher.Alerting.{kind, next_state, state_row}
use monitoring_service.Dispatcher.{
  CheckRun, World, queue_alert, notify, alert_rows, add_result, handle_row, handle_rows, publish,
  record_check, perform_check,
}
use monitoring_service.Dispatcher.Frame.{loop_end}
use monitoring_service.Metrics.{up_front, pair_eq}

abbrev pub IsOutcome : Text → Type 0
IsOutcome l = any_where (text_eq l) up_front.checks ≡ true

abbrev pub IsQueued : Text × Text → Type 0
IsQueued l = any_where (pair_eq l) up_front.alerts_queued ≡ true

outcome_label-IsOutcome : (m : Measurement) → IsOutcome (outcome_label m)
unfolding outcome_label
outcome_label-IsOutcome m = elim (Bool-cases (is_up_for m.status_code)) [
  | inl up ↦ rw up refl
  | inr down ↦ rw down (of_error m.error)
]
  where
    of_error :
        (e : Option CheckError)
        → IsOutcome (elim e [ none ↦ text "http_error" | some x ↦ error_text x ])
    of_error none = refl
    of_error (some timeout) = refl
    of_error (some dns_failure) = refl
    of_error (some connection_refused) = refl
    of_error (some connect_error) = refl
    of_error (some unknown) = refl

kind-IsQueued :
    (c : AlertChannel) (is_recovery : Bool) → IsQueued (channel_value c, kind is_recovery)
kind-IsQueued email true = refl
kind-IsQueued email false = refl
kind-IsQueued webhook true = refl
kind-IsQueued webhook false = refl

handle_row-IsQueued :
    (is_up : Bool) (run : CheckRun) (row : AlertConfig) (w : World)
    → All IsQueued w.alerts_counted
    → All IsQueued (handle_row is_up run row w).alerts_counted
unfolding handle_row notify queue_alert
handle_row-IsQueued is_up run row w h =
    go (next_state is_up (run.now row.id) row (state_row row w.db)).1
  where
    go : (alert : Option Bool) → All IsQueued (notify alert run row w).alerts_counted
    go none = h
    go (some is_recovery) =
        All-append IsQueued w.alerts_counted ((channel_value row.channel, kind is_recovery) ∷ []) h
          (kind-IsQueued row.channel is_recovery, tt)

-- What the rows of a check count, of the alerts that they queue, and of the checks.
handle_rows-IsQueued :
    (is_up : Bool) (run : CheckRun) (rows : List AlertConfig) (w : World)
    → All IsQueued w.alerts_counted
    → All IsQueued (handle_rows is_up run rows w).alerts_counted
unfolding handle_rows
handle_rows-IsQueued is_up run [] w h = h
handle_rows-IsQueued is_up run (row ∷ rows) w h =
    handle_rows-IsQueued is_up run rows (handle_row is_up run row w)
      (handle_row-IsQueued is_up run row w h)

handle_row-checks_counted :
    (is_up : Bool) (run : CheckRun) (row : AlertConfig) (w : World)
    → (handle_row is_up run row w).checks_counted ≡ w.checks_counted
unfolding handle_row notify queue_alert
handle_row-checks_counted is_up run row w = ground arith

handle_rows-checks_counted :
    (is_up : Bool) (run : CheckRun) (rows : List AlertConfig) (w : World)
    → (handle_rows is_up run rows w).checks_counted ≡ w.checks_counted
unfolding handle_rows
handle_rows-checks_counted is_up run [] w = refl
handle_rows-checks_counted is_up run (row ∷ rows) w =
    handle_rows-checks_counted is_up run rows (handle_row is_up run row w)
    ∙ handle_row-checks_counted is_up run row w

-- A check counts nothing before it has a measurement; then the measurement, and what its loop does.
counted-perform_check :
    (run : CheckRun) (w : World)
    → (((perform_check run w).0.checks_counted ≡ w.checks_counted)
        × ((perform_check run w).0.alerts_counted ≡ w.alerts_counted))
      ⊎ ((m : Measurement) × ((perform_check run w).0.checks_counted
            ≡ w.checks_counted ++ outcome_label m ∷ [])
          × (((perform_check run w).0.alerts_counted ≡ w.alerts_counted)
              ⊎ ((perform_check run w).0.alerts_counted ≡ (loop_end run m w).alerts_counted)))
unfolding perform_check record_check publish
counted-perform_check run w = elim (Option-cases (probe run.outcome)) [
  | inl raised ↦ inl (ground arith, ground arith)
  | inr (m, p) ↦
      let counted =
        handle_rows-checks_counted (is_up_for m.status_code) run (alert_rows run.endpoint_id w.db)
          (record w {
            checks_counted = w.checks_counted ++ outcome_label m ∷ [];
            db = add_result run m w.db;
          }) in
      elim (Option-cases (endpoint_by_id run.endpoint_id w.db)) [
        | inl gone ↦ inr (m, ground arith, inl (ground arith))
        | inr (owner, o) ↦ inr (m, ground (arith, counted), inr (ground arith))
      ]
]

pub perform_check-IsQueued :
    (run : CheckRun) (w : World)
    → All IsQueued w.alerts_counted
    → All IsQueued (perform_check run w).0.alerts_counted
perform_check-IsQueued run w h = elim (counted-perform_check run w) [
  | inl (_, same) ↦ rw same h
  | inr (m, _, inl same) ↦ rw same h
  | inr (m, _, inr same) ↦
      rw same
        (handle_rows-IsQueued (is_up_for m.status_code) run (alert_rows run.endpoint_id w.db) _ h)
]

pub perform_check-IsOutcome :
    (run : CheckRun) (w : World)
    → All IsOutcome w.checks_counted
    → All IsOutcome (perform_check run w).0.checks_counted
perform_check-IsOutcome run w h = elim (counted-perform_check run w) [
  | inl (same, _) ↦ rw same h
  | inr (m, same, _) ↦ rw same (
      All-append IsOutcome w.checks_counted (outcome_label m ∷ []) h
        (outcome_label-IsOutcome m, tt))
]
