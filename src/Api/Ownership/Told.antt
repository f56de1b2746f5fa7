-- ===== src/Api/Ownership/Told.antt =====
-- app/dispatcher.py, `perform_check`: whose configurations the alerts of a check are for.
use mathlib.Core.List.{append-nil, append_assoc}
use monitoring_service.Prelude.{
  ℕ, ◌≡◌, ◌⊎◌, inl, inr, ap, sym, refl, ◌∙◌, Bool, ◌&&◌, Option, none, some, List, [], ◌∷◌, ◌++◌,
  arith, ◌==◌, ==_iff, All, Bool-cases, Option-cases,
}
use monitoring_service.Prelude.Tables.{select, All-append, All-mono, All-first_where}
use monitoring_service.Model.{Endpoint, AlertConfig, Database, endpoint_by_id}
use monitoring_service.Validation.{Network}
use monitoring_service.Dispatcher.{
  World, CheckRun, perform_check, handle_row, handle_rows, notify, queue_alert, alert_rows,
  add_result,
}
use monitoring_service.Dispatcher.Probe.{probe, is_up_for, outcome_label}
use monitoring_service.Dispatcher.Alerting.{AlertTask, next_state, state_row}
use monitoring_service.Dispatcher.Progress.{tasks_of}
use monitoring_service.Dispatcher.Frame.{queued-perform_check, queued-perform_check_failed}
use monitoring_service.Store.Tenancy.{BelongsTo}
use monitoring_service.Api.Ownership.{Matches}
use monitoring_service.Api.Ownership.Guarded.{Guarded, Guarded-Coherent}

-- Some row of a table.
abbrev pub AnyRow : (AlertConfig → Type 0) → List AlertConfig → Type 0
AnyRow P [] = ⊥
AnyRow P (c ∷ cs) = P c ⊎ AnyRow P cs

AnyRow-mono :
    (P Q : AlertConfig → Type 0) (cs : List AlertConfig)
    → ((c : AlertConfig) → P c → Q c)
    → AnyRow P cs
    → AnyRow Q cs
AnyRow-mono P Q [] f h = elim h [ ]
AnyRow-mono P Q (c ∷ cs) f (inl h) = inl (f c h)
AnyRow-mono P Q (c ∷ cs) f (inr h) = inr (AnyRow-mono P Q cs f h)

own_rows : (cs : List AlertConfig) → All (λ (c : AlertConfig). AnyRow (λ x. x ≡ c) cs) cs
own_rows [] = tt
own_rows (c ∷ cs) = (inl refl, All-mono _ _ cs (λ x h. inr h) (own_rows cs))

-- The task is for a configuration of this user, and goes to its target.
abbrev pub IsFor : ℕ → List AlertConfig → AlertTask → Type 0
IsFor user_id cs task =
    AnyRow
      (λ (c : AlertConfig).
        (c.id ≡ task.config_id) × (c.target ≡ task.target) × (c.user_id ≡ user_id))
      cs

queued-notify :
    (alert : Option Bool) (run : CheckRun) (row : AlertConfig) (w : World)
    → (notify alert run row w).queued ≡ w.queued ++ tasks_of alert run row
unfolding notify queue_alert
queued-notify none run row w = sym (append-nil w.queued)
queued-notify (some k) run row w = refl

queued-handle_row :
    (up : Bool) (run : CheckRun) (row : AlertConfig) (w : World)
    → (handle_row up run row w).queued
      ≡ w.queued ++ tasks_of (next_state up (run.now row.id) row (state_row row w.db)).1 run row
unfolding handle_row
queued-handle_row up run row w =
    queued-notify (next_state up (run.now row.id) row (state_row row w.db)).1 run row w

-- What the loop adds to the queue has what the tasks of its rows have.
queued-handle_rows_all :
    (P : AlertTask → Type 0) (up : Bool) (run : CheckRun) (rows : List AlertConfig) (w : World)
    → All (λ row. (alert : Option Bool) → All P (tasks_of alert run row)) rows
    → (new : List AlertTask) × ((handle_rows up run rows w).queued ≡ w.queued ++ new) × All P new
unfolding handle_rows
queued-handle_rows_all P up run [] w h = ([], sym (append-nil w.queued), tt)
queued-handle_rows_all P up run (row ∷ rows) w h =
    let first = tasks_of (next_state up (run.now row.id) row (state_row row w.db)).1 run row in
    let (later, e, all_later) =
      queued-handle_rows_all P up run rows (handle_row up run row w) h.1 in
    (
      first ++ later,
      e ∙ ap (λ q. q ++ later) (queued-handle_row up run row w) ∙ append_assoc w.queued first later,
      All-append P first later (h.0 _) all_later,
    )

tasks_of-IsFor :
    (run : CheckRun) (row : AlertConfig) (cs : List AlertConfig) (user_id : ℕ) (alert : Option Bool)
    → row.user_id ≡ user_id
    → AnyRow (λ x. x ≡ row) cs
    → All (IsFor user_id cs) (tasks_of alert run row)
tasks_of-IsFor run row cs user_id none u h = tt
tasks_of-IsFor run row cs user_id (some k) u h = (
  AnyRow-mono _ _ cs
      (λ c e. (
        ap (λ (x : AlertConfig). x.id) e,
        ap (λ (x : AlertConfig). x.target) e,
        ap (λ (x : AlertConfig). x.user_id) e ∙ u,
      ))
      h,
  tt,
)

-- Where a configuration matches the endpoints, the owner of its endpoint is its user.
owner-Matches :
    (i : ℕ) (owner : Endpoint) (c : AlertConfig) (db : Database)
    → endpoint_by_id i db ≡ some owner
    → c.endpoint_id ≡ i
    → Matches db.endpoints c
    → c.user_id ≡ owner.user_id
owner-Matches i owner c db found same h =
    let (own, test) =
      All-first_where (BelongsTo c.endpoint_id c.user_id) (λ (e : Endpoint). e.id == i) db.endpoints
        owner h found in
    sym (own ((==_iff owner.id i).0 test ∙ sym same))

-- The rows of the loop are configurations of the owner of the endpoint.
alert_rows-owner :
    (i : ℕ) (owner : Endpoint) (db : Database) (cs : List AlertConfig)
    → endpoint_by_id i db ≡ some owner
    → All (Matches db.endpoints) cs
    → All (λ (c : AlertConfig). AnyRow (λ x. x ≡ c) db.configs) cs
    → All
        (λ (c : AlertConfig). (c.user_id ≡ owner.user_id) × AnyRow (λ x. x ≡ c) db.configs)
        (select (λ (c : AlertConfig). c.endpoint_id == i && c.is_active) cs)
alert_rows-owner i owner db [] found m k = tt
alert_rows-owner i owner db (c ∷ cs) found m k =
    let rest = alert_rows-owner i owner db cs found m.1 k.1 in
    elim (Bool-cases (c.endpoint_id == i && c.is_active)) [
      | inl e ↦
          let same : c.endpoint_id ≡ i = ground arith in
          rw e ((owner-Matches i owner c db found same m.0, k.0), rest)
      | inr e ↦ rw e rest
    ]

-- In whatever database the program's requests and tasks lead to: the alerts that a check queues,
-- whether or not it is committed, are all for configurations of the user who owns the checked
-- endpoint, and go to the targets that they hold.
pub perform_check-IsFor :
    (network : Network) (run : CheckRun) (owner : Endpoint) (w : World)
    → Guarded network w.db
    → endpoint_by_id run.endpoint_id w.db ≡ some owner
    → (new : List AlertTask) × ((perform_check run w).0.queued ≡ w.queued ++ new)
      × All (IsFor owner.user_id w.db.configs) new
unfolding add_result
perform_check-IsFor network run owner w g found = elim (Option-cases (probe run.outcome)) [
  | inl raised ↦
      ([], queued-perform_check_failed run w (inl raised) ∙ sym (append-nil w.queued), tt)
  | inr (m, p) ↦
      let (new, e, all_new) =
        queued-handle_rows_all (IsFor owner.user_id w.db.configs) (is_up_for m.status_code) run
          (alert_rows run.endpoint_id w.db)
          (record w {
            checks_counted = w.checks_counted ++ outcome_label m ∷ [];
            db = add_result run m w.db;
          })
          (All-mono _ _ (alert_rows run.endpoint_id w.db)
            (λ row h alert. tasks_of-IsFor run row w.db.configs owner.user_id alert h.0 h.1)
            (alert_rows-owner run.endpoint_id owner w.db w.db.configs found
              (Guarded-Coherent network g) (own_rows w.db.configs))) in
      (new, queued-perform_check run w m owner p found ∙ e, all_new)
]
