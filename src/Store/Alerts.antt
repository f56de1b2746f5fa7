-- ===== src/Store/Alerts.antt =====
-- app/db.py: the statements on alert configurations.
use monitoring_service.Prelude.{
  true, ℕ, ◌+◌, Bool, false, ◌&&◌, ◌||◌, Option, none, some, List, [], ◌∷◌, ◌++◌, ◌==◌,
  if◌then◌else◌,
}
use monitoring_service.Prelude.Text.{Text}
use monitoring_service.Prelude.Tables.{select, first_where, update_where, delete_where}
use monitoring_service.Model.{
  AlertChannel, AlertConfig, AlertState, Database, Sequences, endpoint_by_id,
}
use monitoring_service.Model.Int.{ℤ}
use monitoring_service.Dispatcher.Alerting.{new_state}
use monitoring_service.Store.{
  Outcome, returns, value_error, integrity_error, Patch, patched, is_null, user_exists,
}

abbrev pub endpoint_exists : ℕ → Database → Bool
endpoint_exists i db = elim (endpoint_by_id i db) [ none ↦ false | some _ ↦ true ]

-- The configuration is flushed before its state, which refers to its key; both are committed
-- together. A missing user or endpoint is an `IntegrityError`, raised again as `ValueError`.
unfoldable pub add_alert_to_db :
    ℤ → AlertChannel → Text → Bool → ℕ → ℕ → Database → Database × Outcome AlertConfig
add_alert_to_db threshold channel target is_active endpoint_id user_id db =
    let config : AlertConfig = record {
      id = db.seq.config_seq;
      user_id = user_id;
      endpoint_id = endpoint_id;
      threshold = threshold;
      channel = channel;
      target = target;
      is_active = is_active;
    } in
    let seq' : Sequences = record db.seq { config_seq = db.seq.config_seq + 1 } in
    if user_exists user_id db && endpoint_exists endpoint_id db
    then (
      record db {
        configs = db.configs ++ config ∷ [];
        states = db.states ++ new_state db.seq.state_seq config.id ∷ [];
        seq = record seq' { state_seq = db.seq.state_seq + 1 };
      },
      returns config,
    )
    else (record db { seq = seq' }, value_error)

unfoldable pub get_alerts_per_owned_endpoint : ℕ → ℕ → Database → List AlertConfig
get_alerts_per_owned_endpoint endpoint_id user_id db =
    select (λ (c : AlertConfig). c.endpoint_id == endpoint_id && c.user_id == user_id) db.configs

unfoldable pub get_owned_alert : ℕ → ℕ → ℕ → Database → Option AlertConfig
get_owned_alert alert_id endpoint_id user_id db =
    first_where
      (λ (c : AlertConfig).
        c.id == alert_id && c.user_id == user_id && c.endpoint_id == endpoint_id)
      db.configs

-- `update_data` of an `AlertConfigUpdate`.
pub record AlertPatch : Type 0 where
  pub threshold : Patch ℤ
  pub channel : Patch AlertChannel
  pub target : Patch Text
  pub is_active : Patch Bool

unfoldable pub apply_alert_patch : AlertPatch → AlertConfig → AlertConfig
apply_alert_patch p c = record c {
  threshold = patched p.threshold c.threshold;
  channel = patched p.channel c.channel;
  target = patched p.target c.target;
  is_active = patched p.is_active c.is_active;
}

-- A table model validates nothing on assignment; the columns refuse a null.
unfoldable pub update_alert_in_db :
    AlertConfig → AlertPatch → Database → Database × Outcome AlertConfig
update_alert_in_db alert p db =
    if is_null p.threshold || is_null p.channel || is_null p.target || is_null p.is_active
    then (db, integrity_error)
    else (
      record db {
        configs =
            update_where (λ (c : AlertConfig). c.id == alert.id) (apply_alert_patch p) db.configs;
      },
      returns (apply_alert_patch p alert),
    )

-- ON DELETE CASCADE takes the state row along.
unfoldable pub delete_alert_in_db : AlertConfig → Database → Database
delete_alert_in_db alert db = record db {
  configs = delete_where (λ (c : AlertConfig). c.id == alert.id) db.configs;
  states = delete_where (λ (s : AlertState). s.config_id == alert.id) db.states;
}
