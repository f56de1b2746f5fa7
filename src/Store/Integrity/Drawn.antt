-- ===== src/Store/Integrity/Drawn.antt =====
-- app/dispatcher.py: a check draws no key of a user or of an endpoint.
use monitoring_service.Prelude.{ℕ, ◌≡◌, ◌∙◌, ap, refl, inl, inr, Bool, List, [], ◌∷◌, ◌++◌, arith}
use monitoring_service.Model.{AlertConfig, AlertState, Database}
use monitoring_service.Dispatcher.{
  World, CheckRun, handle_row, handle_rows, notify, perform_check, add_result, alert_rows,
}
use monitoring_service.Dispatcher.Probe.{is_up_for, outcome_label}
use monitoring_service.Dispatcher.Alerting.{save_state, next_state, state_row}
use monitoring_service.Dispatcher.Progress.{db-notify}
use monitoring_service.Dispatcher.Frame.{
  perform_check_not_done, perform_check_done, perform_check-cases,
}

-- The next keys of users and of endpoints.
abbrev pub drawn : Database → ℕ × ℕ
drawn db = (db.seq.user_seq, db.seq.endpoint_seq)

drawn-save_state :
    (row : AlertConfig) (s : AlertState) (db : Database) → drawn (save_state row s db) ≡ drawn db
unfolding save_state
drawn-save_state row s db = ground arith

drawn-handle_rows :
    (up : Bool) (run : CheckRun) (rows : List AlertConfig) (w : World)
    → drawn (handle_rows up run rows w).db ≡ drawn w.db
unfolding handle_rows handle_row
drawn-handle_rows up run [] w = refl
drawn-handle_rows up run (row ∷ rows) w =
    let (s, alert) = next_state up (run.now row.id) row (state_row row w.db) in
    drawn-handle_rows up run rows (handle_row up run row w)
    ∙ drawn-save_state row s (notify alert run row w).db
    ∙ ap drawn (db-notify alert run row w)

pub drawn-perform_check :
    (run : CheckRun) (w : World) → drawn (perform_check run w).0.db ≡ drawn w.db
unfolding add_result
drawn-perform_check run w = elim (perform_check-cases run w) [
  | inl not_done ↦ ap drawn (perform_check_not_done run w not_done)
  | inr (m, owner, p, o, c) ↦
      ap drawn (perform_check_done run w m owner p o c).0
      ∙ drawn-handle_rows (is_up_for m.status_code) run (alert_rows run.endpoint_id w.db)
          (record w {
            checks_counted = w.checks_counted ++ outcome_label m ∷ [];
            db = add_result run m w.db;
          })
]
