-- ===== src/Dispatcher/Frame.antt =====
-- What `perform_check` leaves alone, and what one committed run comes to.
use monitoring_service.Prelude.{
  ◌≡◌, ◌≢◌, ◌⊎◌, inl, inr, refl, ◌∙◌, ap, ◌++◌, Option-cases, Bool-cases, Bool, true, false, some,
  none, List, [], ◌∷◌, arith,
}
use monitoring_service.Model.{Endpoint, AlertConfig, AlertState, Database, endpoint_by_id}
use monitoring_service.Dispatcher.{
  World, CheckRun, done, handle_row, handle_rows, notify, record_check, perform_check, add_result,
  publish, alert_rows,
}
use monitoring_service.Dispatcher.Probe.{Measurement, probe, is_up_for, outcome_label}
use monitoring_service.Dispatcher.Alerting.{save_state, next_state, state_row}
use monitoring_service.Dispatcher.Progress.{db-notify}

-- The tables that a check never writes.
pub record SameSettings (a b : Database) : Type 0 where
  pub users : a.users ≡ b.users
  pub endpoints : a.endpoints ≡ b.endpoints
  pub configs : a.configs ≡ b.configs

pub SameSettings-trans : {a b c : Database} → SameSettings a b → SameSettings b c → SameSettings a c
SameSettings-trans p q = record {
  users = p.users ∙ q.users;
  endpoints = p.endpoints ∙ q.endpoints;
  configs = p.configs ∙ q.configs;
}

SameSettings-eq : {a b : Database} → a ≡ b → SameSettings a b
SameSettings-eq e = record {
  users = ap (λ (d : Database). d.users) e;
  endpoints = ap (λ (d : Database). d.endpoints) e;
  configs = ap (λ (d : Database). d.configs) e;
}

save_state-SameSettings :
    (row : AlertConfig) (s : AlertState) (db : Database) → SameSettings (save_state row s db) db
unfolding save_state
save_state-SameSettings row s db = ground arith

pub handle_row-SameSettings :
    (up : Bool) (run : CheckRun) (row : AlertConfig) (w : World)
    → SameSettings (handle_row up run row w).db w.db
unfolding handle_row
handle_row-SameSettings up run row w =
    let (s, alert) = next_state up (run.now row.id) row (state_row row w.db) in
    SameSettings-trans (save_state-SameSettings row s (notify alert run row w).db)
      (SameSettings-eq (db-notify alert run row w))

pub handle_rows-SameSettings :
    (up : Bool) (run : CheckRun) (rows : List AlertConfig) (w : World)
    → SameSettings (handle_rows up run rows w).db w.db
unfolding handle_rows
handle_rows-SameSettings up run [] w = record { users = refl; endpoints = refl; configs = refl }
handle_rows-SameSettings up run (row ∷ rows) w =
    SameSettings-trans (handle_rows-SameSettings up run rows (handle_row up run row w))
      (handle_row-SameSettings up run row w)

-- The world at the end of the loop, in the transaction that is still open.
abbrev pub loop_end : CheckRun → Measurement → World → World
loop_end run m w =
    handle_rows (is_up_for m.status_code) run (alert_rows run.endpoint_id w.db) (record w {
      checks_counted = w.checks_counted ++ outcome_label m ∷ [];
      db = add_result run m w.db;
    })

-- A check whose commit fails, or that does not reach the commit, leaves the database as it was.
pub perform_check_not_done :
    (run : CheckRun) (w : World)
    → (perform_check run w).1 ≢ done
    → (perform_check run w).0.db ≡ w.db
unfolding perform_check record_check
perform_check_not_done run w h = ground arith

-- A check that ends normally leaves what its loop made of the database and of the queue.
pub perform_check_done :
    (run : CheckRun) (w : World) (m : Measurement) (owner : Endpoint)
    → probe run.outcome ≡ some m
    → endpoint_by_id run.endpoint_id w.db ≡ some owner
    → run.commits ≡ true
    → ((perform_check run w).0.db ≡ (loop_end run m w).db) × ((perform_check run w).1 ≡ done)
unfolding perform_check record_check publish
perform_check_done run w m owner p o c = ground arith

-- A failed commit rolls the whole check back.
pub db-perform_check_uncommitted :
    (run : CheckRun) (w : World) → run.commits ≡ false → (perform_check run w).0.db ≡ w.db
unfolding perform_check record_check
db-perform_check_uncommitted run w c = ground arith

-- Whether or not the commit succeeds, the messages of the loop are sent.
pub queued-perform_check :
    (run : CheckRun) (w : World) (m : Measurement) (owner : Endpoint)
    → probe run.outcome ≡ some m
    → endpoint_by_id run.endpoint_id w.db ≡ some owner
    → (perform_check run w).0.queued ≡ (loop_end run m w).queued
unfolding perform_check record_check publish
queued-perform_check run w m owner p o = ground arith

-- A check that does not reach the loop has sent nothing.
pub queued-perform_check_failed :
    (run : CheckRun) (w : World)
    → (probe run.outcome ≡ none) ⊎ (endpoint_by_id run.endpoint_id w.db ≡ none)
    → (perform_check run w).0.queued ≡ w.queued
unfolding perform_check
queued-perform_check_failed run w h = ground arith

-- Whether a check ends normally, and then what it rests on.
pub perform_check-cases :
    (run : CheckRun) (w : World)
    → ((perform_check run w).1 ≢ done)
      ⊎ ((m : Measurement) × (owner : Endpoint) × (probe run.outcome ≡ some m)
          × (endpoint_by_id run.endpoint_id w.db ≡ some owner)
          × (run.commits ≡ true))
unfolding perform_check record_check
perform_check-cases run w = elim (Option-cases (probe run.outcome)) [
  | inl raised ↦ inl (ground arith)
  | inr (m, p) ↦ elim (Option-cases (endpoint_by_id run.endpoint_id w.db)) [
    | inl gone ↦ inl (ground arith)
    | inr (owner, o) ↦ elim (Bool-cases run.commits) [
      | inl c ↦ inr (m, owner, p, o, c)
      | inr c ↦ inl (ground arith)
    ]
  ]
]

pub perform_check-SameSettings :
    (run : CheckRun) (w : World) → SameSettings (perform_check run w).0.db w.db
unfolding add_result
perform_check-SameSettings run w = elim (perform_check-cases run w) [
  | inl not_done ↦ SameSettings-eq (perform_check_not_done run w not_done)
  | inr (m, owner, p, o, c) ↦
      SameSettings-trans (SameSettings-eq (perform_check_done run w m owner p o c).0) (
        ground (
          arith,
          handle_rows-SameSettings (is_up_for m.status_code) run (alert_rows run.endpoint_id w.db)
              (record w {
                checks_counted = w.checks_counted ++ outcome_label m ∷ [];
                db = add_result run m w.db;
              }),
        ))
]
