-- ===== src/Store/Integrity/AlertOperations.antt =====
-- app/db.py: the statements on alert configurations and the foreign keys.
use monitoring_service.Prelude.{ℕ, inl, inr, refl, Bool, ◌||◌, ◌==◌, Bool-cases}
use monitoring_service.Prelude.Tables.{
  All-append, All-mono, All-select, All-select_mono, All-update_where,
}
use monitoring_service.Prelude.Text.{Text}
use monitoring_service.Model.{AlertChannel, User, Endpoint, AlertConfig, Database}
use monitoring_service.Model.Int.{ℤ}
use monitoring_service.Store.{is_null, user_exists}
use monitoring_service.Store.Alerts.{
  AlertPatch, add_alert_to_db, apply_alert_patch, update_alert_in_db, delete_alert_in_db,
  endpoint_exists,
}
use monitoring_service.Store.Integrity.{
  HasKey, HasKey-append, HasKey-delete, HasKey-update, HasKey-last, IsReferential, not-true,
  user_exists→HasKey, endpoint_exists→HasKey,
}
use monitoring_service.Store.Integrity.Operations.{other_sequences}

-- `add_alert_to_db` keeps every reference to a row that is there, whether or not it succeeds.
pub add_alert-IsReferential :
    (threshold : ℤ) (channel : AlertChannel) (target : Text) (is_active : Bool)
    (endpoint_id user_id : ℕ) (db : Database)
    → IsReferential db
    → IsReferential (add_alert_to_db threshold channel target is_active endpoint_id user_id db).0
unfolding add_alert_to_db
add_alert-IsReferential threshold channel target is_active endpoint_id user_id db ok =
    elim (Bool-cases (user_exists user_id db)) [
      | inr e ↦ rw e (other_sequences _ db ok)
      | inl e ↦ elim (Bool-cases (endpoint_exists endpoint_id db)) [
        | inr f ↦ rw (e, f) (other_sequences _ db ok)
        | inl f ↦
            rw (e, f)
              (record {
                endpoint_users = ok.endpoint_users;
                result_endpoints = ok.result_endpoints;
                config_users =
                    All-append _ db.configs _ ok.config_users (user_exists→HasKey user_id db e, tt);
                config_endpoints =
                    All-append _ db.configs _ ok.config_endpoints
                      (endpoint_exists→HasKey endpoint_id db f, tt);
                state_configs =
                    All-append _ db.states _
                      (All-mono _ _ db.states
                        (λ s. HasKey-append (λ (c : AlertConfig). c.id) s.config_id db.configs _)
                        ok.state_configs)
                      (HasKey-last (λ (c : AlertConfig). c.id) db.configs _, tt);
              })
      ]
    ]

-- Deleting a configuration keeps every reference to a row that is there: its state goes too.
pub delete_alert-IsReferential :
    (alert : AlertConfig) (db : Database)
    → IsReferential db
    → IsReferential (delete_alert_in_db alert db)
unfolding delete_alert_in_db
delete_alert-IsReferential alert db ok = record {
  endpoint_users = ok.endpoint_users;
  result_endpoints = ok.result_endpoints;
  config_users = All-select _ _ db.configs ok.config_users;
  config_endpoints = All-select _ _ db.configs ok.config_endpoints;
  state_configs =
      All-select_mono _ _ _ db.states
        (λ s t h.
          HasKey-delete (λ (c : AlertConfig). c.id) s.config_id alert.id db.configs (not-true _ t)
            h)
        ok.state_configs;
}

-- Updating a configuration keeps every reference to a row that is there.
pub update_alert-IsReferential :
    (alert : AlertConfig) (p : AlertPatch) (db : Database)
    → IsReferential db
    → IsReferential (update_alert_in_db alert p db).0
unfolding update_alert_in_db apply_alert_patch
update_alert-IsReferential alert p db ok =
    let same = λ (c : AlertConfig). c.id == alert.id in
    elim (Bool-cases
      (is_null p.threshold || is_null p.channel || is_null p.target || is_null p.is_active)) [
        | inl n ↦ rw n ok
        | inr n ↦ rw n (record {
          endpoint_users = ok.endpoint_users;
          result_endpoints = ok.result_endpoints;
          config_users =
              All-update_where (λ (c : AlertConfig). HasKey (λ (u : User). u.id) c.user_id db.users)
                same (apply_alert_patch p) db.configs (λ c h. h) ok.config_users;
          config_endpoints =
              All-update_where
                (λ (c : AlertConfig). HasKey (λ (e : Endpoint). e.id) c.endpoint_id db.endpoints)
                same (apply_alert_patch p) db.configs (λ c h. h) ok.config_endpoints;
          state_configs =
              All-mono _ _ db.states
                (λ s.
                  HasKey-update (λ (c : AlertConfig). c.id) s.config_id same (apply_alert_patch p)
                    db.configs (λ c. refl))
                ok.state_configs;
        })
      ]
