-- ===== src/Store/Integrity/Reachable.antt =====
-- The databases that the program's own calls can lead to, from the empty tables on: a relation with
-- one constructor per statement of app/db.py and app/alerts.py and per task of app/dispatcher.py that
-- writes. The
-- alert calls work on the configuration that `get_owned_alert` has found.
use monitoring_service.Prelude.{ℕ, ◌≡◌, ◌==◌, ◌&&◌, Bool, some, List}
use monitoring_service.Prelude.Tables.{All-update_where}
use monitoring_service.Prelude.Text.{Text}
use monitoring_service.Model.{AlertChannel, CheckResult, AlertConfig, AlertState, Database, empty}
use monitoring_service.Model.Int.{ℤ}
use monitoring_service.Dispatcher.{World, CheckRun, perform_check}
use monitoring_service.Dispatcher.Claim.{Dispatch, dispatch_due_checks}
use monitoring_service.Dispatcher.Purge.{Retention, purge_old_results}
use monitoring_service.Store.{
  EndpointPatch, add_user, add_endpoint, update_endpoint_in_db, delete_endpoint_in_db,
}
use monitoring_service.Store.Alerts.{
  AlertPatch, add_alert_to_db, update_alert_in_db, delete_alert_in_db, get_owned_alert,
}
use monitoring_service.Alerts.{mark_alert_undelivered}
use monitoring_service.Store.Integrity.{HasKey, IsReferential}
use monitoring_service.Store.Integrity.Operations.{
  add_user-IsReferential, add_endpoint-IsReferential, update_endpoint-IsReferential,
  delete_endpoint-IsReferential,
}
use monitoring_service.Store.Integrity.AlertOperations.{
  add_alert-IsReferential, update_alert-IsReferential, delete_alert-IsReferential,
}
use monitoring_service.Store.Integrity.Checks.{
  perform_check-IsReferential, dispatch-IsReferential, purge-IsReferential,
}

pub data Step : Database → Database → Type 0 where
  user_added :
      (email hashed_password : Text) (created_at : ℕ) (db : Database)
      → Step db (add_user email hashed_password created_at db).0
  endpoint_added :
      (now db_now user_id : ℕ) (url : Text) (interval : ℕ) (db : Database)
      → Step db (add_endpoint now db_now user_id url interval db).0
  endpoint_updated :
      (now endpoint_id user_id : ℕ) (p : EndpointPatch) (db : Database)
      → Step db (update_endpoint_in_db now endpoint_id user_id p db).0
  endpoint_deleted :
      (endpoint_id user_id : ℕ) (db : Database)
      → Step db (delete_endpoint_in_db endpoint_id user_id db).0
  alert_added :
      (threshold : ℤ) (channel : AlertChannel) (target : Text) (is_active : Bool)
      (endpoint_id user_id : ℕ) (db : Database)
      → Step db (add_alert_to_db threshold channel target is_active endpoint_id user_id db).0
  alert_updated :
      (alert_id endpoint_id user_id : ℕ) (alert : AlertConfig) (p : AlertPatch) (db : Database)
      → get_owned_alert alert_id endpoint_id user_id db ≡ some alert
      → Step db (update_alert_in_db alert p db).0
  alert_deleted :
      (alert_id endpoint_id user_id : ℕ) (alert : AlertConfig) (db : Database)
      → get_owned_alert alert_id endpoint_id user_id db ≡ some alert
      → Step db (delete_alert_in_db alert db)
  checked : (run : CheckRun) (w : World) → Step w.db (perform_check run w).0.db
  dispatched : (d : Dispatch) (db : Database) → Step db (dispatch_due_checks d db).0
  purged :
      (config : Retention) (fuel : ℕ) (now : ℕ → ℕ) (batch_size : ℕ) (db : Database)
      (left : List CheckResult) (total : ℕ)
      → purge_old_results config fuel now batch_size db.results ≡ some (left, total)
      → Step db (record db { results = left })
  alert_undelivered :
      (config_id : ℕ) (db : Database) → Step db (mark_alert_undelivered config_id db)

undelivered-IsReferential :
    (config_id : ℕ) (db : Database)
    → IsReferential db
    → IsReferential (mark_alert_undelivered config_id db)
unfolding mark_alert_undelivered
undelivered-IsReferential config_id db ok = record {
  endpoint_users = ok.endpoint_users;
  result_endpoints = ok.result_endpoints;
  config_users = ok.config_users;
  config_endpoints = ok.config_endpoints;
  state_configs =
      All-update_where
        (λ (s : AlertState). HasKey (λ (c : AlertConfig). c.id) s.config_id db.configs)
        (λ s. s.config_id == config_id && s.alert_sent) _ db.states (λ s h. h) ok.state_configs;
}

pub data Reachable : Database → Type 0 where
  start : Reachable empty
  next : {db db' : Database} → Reachable db → Step db db' → Reachable db'

Step-IsReferential : {db db' : Database} → Step db db' → IsReferential db → IsReferential db'
Step-IsReferential (user_added a b c db) ok = add_user-IsReferential a b c db ok
Step-IsReferential (endpoint_added a b c d e db) ok = add_endpoint-IsReferential a b c d e db ok
Step-IsReferential (endpoint_updated a b c d db) ok = update_endpoint-IsReferential a b c d db ok
Step-IsReferential (endpoint_deleted a b db) ok = delete_endpoint-IsReferential a b db ok
Step-IsReferential (alert_added a b c d e f db) ok = add_alert-IsReferential a b c d e f db ok
Step-IsReferential (alert_updated a b c alert p db found) ok =
    update_alert-IsReferential alert p db ok
Step-IsReferential (alert_deleted a b c alert db found) ok = delete_alert-IsReferential alert db ok
Step-IsReferential (checked run w) ok = perform_check-IsReferential run w ok
Step-IsReferential (dispatched d db) ok = dispatch-IsReferential d db ok
Step-IsReferential (purged a b c d db left total e) ok =
    purge-IsReferential a b c d db left total e ok
Step-IsReferential (alert_undelivered c db) ok = undelivered-IsReferential c db ok

-- In every database that the program's calls lead to, whatever their order, arguments and outcomes,
-- each endpoint, result, configuration and alert state refers to rows that are there.
pub Reachable-IsReferential : {db : Database} → Reachable db → IsReferential db
Reachable-IsReferential start = record {
  endpoint_users = tt;
  result_endpoints = tt;
  config_users = tt;
  config_endpoints = tt;
  state_configs = tt;
}
Reachable-IsReferential (next r s) = Step-IsReferential s (Reachable-IsReferential r)
