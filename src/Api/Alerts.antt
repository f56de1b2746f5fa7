-- ===== src/Api/Alerts.antt =====
-- app/api.py: the handlers of the alert routes. The response model `AlertConfigRead` has the
-- validator of `AlertConfigCreate`, so what is answered is validated, after the commit.
use monitoring_service.Prelude.{ℕ, Bool, none, some, List, [], ◌∷◌}
use monitoring_service.Prelude.Text.{Text}
use monitoring_service.Model.{AlertChannel, AlertConfig, Database}
use monitoring_service.Model.Int.{ℤ}
use monitoring_service.Validation.{Network, valid, value_error, check_target_matches_channel}
use monitoring_service.Store.{returns, Response, body, http_exception, uncaught, get_owned_endpoint}
use monitoring_service.Store.Alerts.{
  AlertPatch, add_alert_to_db, get_alerts_per_owned_endpoint, get_owned_alert, update_alert_in_db,
  delete_alert_in_db,
}

module _ (network : Network) where
  -- `AlertConfigRead` of a configuration: an invalid one is a `ResponseValidationError`.
  unfoldable pub alert_read : AlertConfig → Response AlertConfig
  alert_read c = elim (check_target_matches_channel network c.channel c.target) [
    | value_error ↦ uncaught
    | valid target' ↦ body (record c { target = target' })
  ]

  unfoldable pub alert_reads : List AlertConfig → Response (List AlertConfig)
  alert_reads [] = body []
  alert_reads (c ∷ cs) = elim (alert_read c) [
    | body r ↦ elim (alert_reads cs) [ body rs ↦ body (r ∷ rs) | _ ↦ uncaught ]
    | _ ↦ uncaught
  ]

  unfoldable pub add_alert :
      ℤ → AlertChannel → Text → Bool → ℕ → ℕ → Database → Database × Response AlertConfig
  add_alert threshold channel target is_active endpoint_id user_id db =
      elim (check_target_matches_channel network channel target) [
        | value_error ↦ (db, http_exception 422)
        | valid target' ↦ elim (get_owned_endpoint endpoint_id user_id db) [
          | none ↦ (db, http_exception 404)
          | some _ ↦
              let (db', added) =
                add_alert_to_db threshold channel target' is_active endpoint_id user_id db in
              (db', elim added [ returns c ↦ alert_read c | _ ↦ http_exception 400 ])
        ]
      ]

  unfoldable pub get_alerts : ℕ → ℕ → Database → Response (List AlertConfig)
  get_alerts endpoint_id user_id db = elim (get_owned_endpoint endpoint_id user_id db) [
    | none ↦ http_exception 404
    | some _ ↦ alert_reads (get_alerts_per_owned_endpoint endpoint_id user_id db)
  ]

  unfoldable pub update_alert : ℕ → ℕ → ℕ → AlertPatch → Database → Database × Response AlertConfig
  update_alert endpoint_id alert_id user_id p db =
      elim (get_owned_endpoint endpoint_id user_id db) [
        | none ↦ (db, http_exception 404)
        | some _ ↦ elim (get_owned_alert alert_id endpoint_id user_id db) [
          | none ↦ (db, http_exception 404)
          | some alert ↦
              let (db', updated) = update_alert_in_db alert p db in
              (db', elim updated [ returns c ↦ alert_read c | _ ↦ http_exception 400 ])
        ]
      ]

unfoldable pub delete_alert : ℕ → ℕ → ℕ → Database → Database × Response {0} Unit
delete_alert endpoint_id alert_id user_id db = elim (get_owned_endpoint endpoint_id user_id db) [
  | none ↦ (db, http_exception 404)
  | some _ ↦ elim (get_owned_alert alert_id endpoint_id user_id db) [
    | none ↦ (db, http_exception 404)
    | some alert ↦ (delete_alert_in_db alert db, body tt)
  ]
]
