-- ===== src/Dispatcher/Published.antt =====
-- app/dispatcher.py with app/events.py: the status that is published of an endpoint, beside the one
-- that is stored.
pub mod Agreement
use monitoring_service.Prelude.{
  ℕ, ◌≡◌, ◌≢◌, ◌≤◌, ◌<◌, ◌⊎◌, inl, inr, refl, ◌∙◌, sym, ap, Bool, true, false, not, ◌&&◌, Option,
  none, some, List, [], ◌∷◌, ◌++◌, arith, ◌==◌, leb, All, Bool-cases, Option-cases, if◌then◌else◌,
}
use monitoring_service.Prelude.Tables.{All-append, All-mono}
use monitoring_service.Model.{Endpoint, CheckResult, AlertConfig, Database, endpoint_by_id}
use monitoring_service.Dispatcher.{
  StatusMessage, World, CheckRun, done, notify, queue_alert, handle_row, handle_rows, alert_rows,
  latest_result, add_result, should_publish, publish, record_check, perform_check,
}
use monitoring_service.Dispatcher.Probe.{Measurement, probe, is_up_for, outcome_label}
use monitoring_service.Dispatcher.Alerting.{save_state}
use monitoring_service.Dispatcher.Runs.{run_checks}

-- What the last message about an endpoint says.
abbrev pub last_published : ℕ → List StatusMessage → Option Bool
last_published i [] = none
last_published i (m ∷ ms) = elim (last_published i ms) [
  | some b ↦ some b
  | none ↦ if m.endpoint_id == i then some m.is_up else none
]

abbrev pub up_of : Option CheckResult → Option Bool
up_of none = none
up_of (some r) = some (is_up_for r.status_code)

-- What the latest stored result of an endpoint says.
abbrev pub last_stored : ℕ → List CheckResult → Option Bool
last_stored i results = up_of (latest_result i results)

-- The results of an endpoint are not later than a time.
abbrev pub UpTo : ℕ → ℕ → List CheckResult → Type 0
UpTo i t = All (λ (r : CheckResult). r.endpoint_id ≡ i → r.checked_at ≤ t)

-- The checks of an endpoint run in the order of their times, all after `t`; one that has not committed
-- may run again.
abbrev pub InOrder : ℕ → ℕ → List CheckRun → Type 0
InOrder i t [] = Unit
InOrder i t (run ∷ runs) =
    (run.endpoint_id ≡ i → t < run.checked_at)
    × InOrder i (if run.endpoint_id == i && run.commits then run.checked_at else t) runs

pub last_published-append :
    (i : ℕ) (ms : List StatusMessage) (m : StatusMessage)
    → last_published i (ms ++ m ∷ [])
      ≡ (if m.endpoint_id == i then some m.is_up else last_published i ms)
last_published-append i [] m = refl
last_published-append i (x ∷ ms) m = ground (arith, last_published-append i ms m)

pub latest_result-append :
    (i : ℕ) (rs : List CheckResult) (r : CheckResult)
    → r.endpoint_id ≡ i
    → All (λ (x : CheckResult). x.endpoint_id ≡ i → x.checked_at < r.checked_at) rs
    → latest_result i (rs ++ r ∷ []) ≡ some r
unfolding latest_result
latest_result-append i [] r e h = ground arith
latest_result-append i (x ∷ rs) r e h = ground (arith, latest_result-append i rs r e h.1, h.0)

pub latest_result-append_other :
    (i : ℕ) (rs : List CheckResult) (r : CheckResult)
    → r.endpoint_id ≢ i
    → latest_result i (rs ++ r ∷ []) ≡ latest_result i rs
unfolding latest_result
latest_result-append_other i [] r n = ground arith
latest_result-append_other i (x ∷ rs) r n = ground (arith, latest_result-append_other i rs r n)

-- The loop over the alert rows neither publishes nor stores a result.
kept-handle_row :
    (up : Bool) (run : CheckRun) (row : AlertConfig) (w : World)
    → ((handle_row up run row w).published ≡ w.published)
      × ((handle_row up run row w).db.results ≡ w.db.results)
unfolding handle_row notify queue_alert save_state
kept-handle_row up run row w = ground arith

kept-handle_rows :
    (up : Bool) (run : CheckRun) (rows : List AlertConfig) (w : World)
    → ((handle_rows up run rows w).published ≡ w.published)
      × ((handle_rows up run rows w).db.results ≡ w.db.results)
unfolding handle_rows
kept-handle_rows up run [] w = (refl, refl)
kept-handle_rows up run (row ∷ rows) w =
    let rest = kept-handle_rows up run rows (handle_row up run row w) in
    let one = kept-handle_row up run row w in (rest.0 ∙ one.0, rest.1 ∙ one.1)

not-should_publish :
    (prev : Option CheckResult) (is_up : Bool)
    → should_publish prev is_up ≡ false
    → up_of prev ≡ some is_up
unfolding should_publish
not-should_publish none is_up h = ground arith
not-should_publish (some prev) true h = ground arith
not-should_publish (some prev) false h = ground arith

-- What a check makes of the messages and the results: nothing, or a new result and, where the status
-- is new, a message.
abbrev pub stored_result : CheckRun → Measurement → Database → CheckResult
stored_result run m db = record {
  id = db.seq.result_seq;
  endpoint_id = run.endpoint_id;
  checked_at = run.checked_at;
  status_code = m.status_code;
  error = m.error;
  response_time_ms = m.response_time_ms;
}

pub published-perform_check :
    (run : CheckRun) (w : World)
    → run.publishes ≡ true
    → (((perform_check run w).0.published ≡ w.published)
        × ((perform_check run w).0.db.results ≡ w.db.results))
      ⊎ ((m : Measurement) × (run.commits ≡ true)
          × ((perform_check run w).0.db.results ≡ w.db.results ++ stored_result run m w.db ∷ [])
          × (((last_stored run.endpoint_id w.db.results ≡ some (is_up_for m.status_code))
                × ((perform_check run w).0.published ≡ w.published))
              ⊎ ((message : StatusMessage) × ((perform_check run w).0.published
                    ≡ w.published ++ message ∷ [])
                  × (message.endpoint_id ≡ run.endpoint_id)
                  × (message.is_up ≡ is_up_for m.status_code))))
unfolding perform_check record_check publish add_result should_publish
published-perform_check run w p = elim (Option-cases (probe run.outcome)) [
  | inl raised ↦ inl (ground arith, ground arith)
  | inr (m, measured) ↦ elim (Option-cases (endpoint_by_id run.endpoint_id w.db)) [
    | inl gone ↦ inl (ground arith, ground arith)
    | inr (owner, o) ↦
        let kept =
          kept-handle_rows (is_up_for m.status_code) run (alert_rows run.endpoint_id w.db)
            (record w {
              checks_counted = w.checks_counted ++ outcome_label m ∷ [];
              db = add_result run m w.db;
            }) in
        elim (Bool-cases run.commits) [
          | inr c ↦ inl (ground (arith, kept), ground arith)
          | inl c ↦
              elim (Bool-cases (
                should_publish (latest_result run.endpoint_id w.db.results)
                  (is_up_for m.status_code))) [
                    | inl new ↦ inr (
                      m,
                      c,
                      ground (arith, kept),
                      inr (
                        record {
                          endpoint_id = run.endpoint_id;
                          user_id = owner.user_id;
                          status_code = m.status_code;
                          checked_at = run.checked_at;
                          is_up = is_up_for m.status_code;
                        },
                        ground (arith, kept),
                        refl,
                        refl,
                      ),
                    )
                    | inr same ↦ inr (
                      m,
                      c,
                      ground (arith, kept),
                      inl (
                        not-should_publish (latest_result run.endpoint_id w.db.results) _ same,
                        ground (arith, kept),
                      ),
                    )
                  ]
        ]
  ]
]
