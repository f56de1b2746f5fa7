-- ===== src/Store/Integrity/Checks.antt =====
-- app/dispatcher.py: the check, the claim and the purge, and the foreign keys.
use monitoring_service.Prelude.{
  ℕ, zero, suc, ◌+◌, ◌-◌, ◌≡◌, ◌∙◌, refl, inl, inr, Bool, some, List, [], ◌∷◌, ◌++◌, arith, ◌==◌,
  length, All, Bool-cases, Option-cases,
}
use monitoring_service.Prelude.Tables.{All-append, All-mono, All-select, All-update_where}
use monitoring_service.Model.{
  User, Endpoint, CheckResult, AlertConfig, AlertState, Database, state_of_config, endpoint_by_id,
}
use monitoring_service.Dispatcher.{
  World, CheckRun, handle_row, handle_rows, perform_check, add_result, alert_rows,
}
use monitoring_service.Dispatcher.Probe.{Measurement, is_up_for, outcome_label}
use monitoring_service.Dispatcher.Alerting.{save_state, next_state, state_row}
use monitoring_service.Dispatcher.Progress.{db-notify, config_id-next_state, config_id-state_row}
use monitoring_service.Dispatcher.Frame.{
  handle_row-SameSettings, perform_check_not_done, perform_check_done, perform_check-cases,
}
use monitoring_service.Dispatcher.Claim.{Dispatch, is_due, claim, dispatch_due_checks}
use monitoring_service.Dispatcher.Purge.{
  Retention, is_old, delete_batch, purge_loop, purge_old_results,
}
use monitoring_service.Store.Integrity.{HasKey, HasKey-update, HasKey-first_where, IsReferential}

abbrev ConfigKey : ℕ → Database → Type 0
ConfigKey c db = HasKey (λ (x : AlertConfig). x.id) c db.configs

save_state-IsReferential :
    (row : AlertConfig) (s : AlertState) (db : Database)
    → ConfigKey s.config_id db
    → IsReferential db
    → IsReferential (save_state row s db)
unfolding save_state
save_state-IsReferential row s db k ok = elim (Option-cases (state_of_config row.id db.states)) [
  | inl e ↦
      rw (e, save_state)
        (record {
          endpoint_users = ok.endpoint_users;
          result_endpoints = ok.result_endpoints;
          config_users = ok.config_users;
          config_endpoints = ok.config_endpoints;
          state_configs = All-append _ db.states _ ok.state_configs (k, tt);
        })
  | inr (t, e) ↦
      rw (e, save_state)
        (record {
          endpoint_users = ok.endpoint_users;
          result_endpoints = ok.result_endpoints;
          config_users = ok.config_users;
          config_endpoints = ok.config_endpoints;
          state_configs =
              All-update_where (λ (x : AlertState). ConfigKey x.config_id db)
                (λ x. x.config_id == row.id) (λ _. s) db.states (λ x h. k) ok.state_configs;
        })
]

handle_row-IsReferential :
    (up : Bool) (run : CheckRun) (row : AlertConfig) (w : World)
    → ConfigKey row.id w.db
    → IsReferential w.db
    → IsReferential (handle_row up run row w).db
unfolding handle_row
handle_row-IsReferential up run row w k ok =
    let own : (next_state up (run.now row.id) row (state_row row w.db)).0.config_id ≡ row.id =
      config_id-next_state up (run.now row.id) row (state_row row w.db)
      ∙ config_id-state_row row w.db in
    let same = db-notify (next_state up (run.now row.id) row (state_row row w.db)).1 run row w in
    rw same (save_state-IsReferential row _ w.db (rw own k) ok)

handle_rows-IsReferential :
    (up : Bool) (run : CheckRun) (rows : List AlertConfig) (w : World)
    → All (λ (c : AlertConfig). ConfigKey c.id w.db) rows
    → IsReferential w.db
    → IsReferential (handle_rows up run rows w).db
unfolding handle_rows
handle_rows-IsReferential up run [] w k ok = ok
handle_rows-IsReferential up run (row ∷ rows) w k ok =
    handle_rows-IsReferential up run rows (handle_row up run row w)
      (rw (handle_row-SameSettings up run row w).configs k.1)
      (handle_row-IsReferential up run row w k.0 ok)

own_keys :
    (cs : List AlertConfig)
    → All (λ (c : AlertConfig). HasKey (λ (x : AlertConfig). x.id) c.id cs) cs
own_keys [] = tt
own_keys (c ∷ cs) = (inl refl, All-mono _ _ cs (λ x h. inr h) (own_keys cs))

add_result-IsReferential :
    (run : CheckRun) (m : Measurement) (owner : Endpoint) (db : Database)
    → endpoint_by_id run.endpoint_id db ≡ some owner
    → IsReferential db
    → IsReferential (add_result run m db)
unfolding add_result
add_result-IsReferential run m owner db o ok = record {
  endpoint_users = ok.endpoint_users;
  result_endpoints =
      All-append _ db.results _ ok.result_endpoints
        (HasKey-first_where (λ (e : Endpoint). e.id) run.endpoint_id db.endpoints owner o, tt);
  config_users = ok.config_users;
  config_endpoints = ok.config_endpoints;
  state_configs = ok.state_configs;
}

-- However a check ends, each reference is to a row that is there.
pub perform_check-IsReferential :
    (run : CheckRun) (w : World) → IsReferential w.db → IsReferential (perform_check run w).0.db
unfolding add_result
perform_check-IsReferential run w ok = elim (perform_check-cases run w) [
  | inl not_done ↦ rw (perform_check_not_done run w not_done) ok
  | inr (m, owner, p, o, c) ↦ rw (perform_check_done run w m owner p o c).0 (
      handle_rows-IsReferential (is_up_for m.status_code) run (alert_rows run.endpoint_id w.db)
        (record w {
          checks_counted = w.checks_counted ++ outcome_label m ∷ [];
          db = add_result run m w.db;
        })
        (All-select _ _ w.db.configs (own_keys w.db.configs))
        (add_result-IsReferential run m owner w.db o ok))
]

-- The claim changes no key.
pub dispatch-IsReferential :
    (d : Dispatch) (db : Database) → IsReferential db → IsReferential (dispatch_due_checks d db).0
unfolding dispatch_due_checks claim
dispatch-IsReferential d db ok =
    let kept = λ (k : ℕ).
      HasKey-update (λ (x : Endpoint). x.id) k (is_due d.now) (claim d.now) db.endpoints
        (λ x. refl) in
    elim (Bool-cases d.commits) [
      | inr e ↦ rw e ok
      | inl e ↦ rw e (record {
        endpoint_users =
            All-update_where (λ (e : Endpoint). HasKey (λ (u : User). u.id) e.user_id db.users)
              (is_due d.now) (claim d.now) db.endpoints (λ x h. h) ok.endpoint_users;
        result_endpoints = All-mono _ _ db.results (λ r. kept r.endpoint_id) ok.result_endpoints;
        config_users = ok.config_users;
        config_endpoints = All-mono _ _ db.configs (λ c. kept c.endpoint_id) ok.config_endpoints;
        state_configs = ok.state_configs;
      })
    ]

All-delete_batch :
    (P : CheckResult → Type 0) (old : CheckResult → Bool) (batch : ℕ) (rs : List CheckResult)
    → All P rs
    → All P (delete_batch old batch rs)
unfolding delete_batch
All-delete_batch P old batch [] h = tt
All-delete_batch P old zero (r ∷ rs) h = h
All-delete_batch P old (suc n) (r ∷ rs) h =
    ground (arith, All-delete_batch P old n rs h.1, All-delete_batch P old (suc n) rs h.1)

All-purge_loop :
    (P : CheckResult → Type 0) (fuel : ℕ) (now : ℕ → ℕ) (pass days batch : ℕ)
    (rows : List CheckResult) (deleted : ℕ) (left : List CheckResult) (total : ℕ)
    → All P rows
    → purge_loop fuel now pass days batch rows deleted ≡ some (left, total)
    → All P left
unfolding purge_loop
All-purge_loop P zero now pass days batch rows deleted left total h e = cc
All-purge_loop P (suc fuel) now pass days batch rows deleted left total h e =
    let rest = delete_batch (is_old days (now pass)) batch rows in
    let kept = All-delete_batch P (is_old days (now pass)) batch rows h in
    ground (
      arith,
      kept,
      All-purge_loop P fuel now (suc pass) days batch rest (deleted + (length rows - length rest))
          left total kept,
    )

-- A purge that ends deletes results only, and each reference is to a row that is there.
pub purge-IsReferential :
    (config : Retention) (fuel : ℕ) (now : ℕ → ℕ) (batch_size : ℕ) (db : Database)
    (left : List CheckResult) (total : ℕ)
    → purge_old_results config fuel now batch_size db.results ≡ some (left, total)
    → IsReferential db
    → IsReferential (record db { results = left })
unfolding purge_old_results
purge-IsReferential config fuel now batch_size db left total e ok = record {
  endpoint_users = ok.endpoint_users;
  result_endpoints =
      All-purge_loop (λ r. HasKey (λ (e : Endpoint). e.id) r.endpoint_id db.endpoints) fuel now 0
        config.retention_days config.purge_batch_size db.results 0 left total ok.result_endpoints e;
  config_users = ok.config_users;
  config_endpoints = ok.config_endpoints;
  state_configs = ok.state_configs;
}
