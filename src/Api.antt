-- ===== src/Api.antt =====
-- app/api.py: the handlers of the endpoint routes, for a user who is logged in. A request body that
-- its model refuses is answered with 422 before the handler runs.
mod Examples
pub mod Alerts
pub mod Accounts
pub mod Isolation
pub mod Broken
pub mod Limits
pub mod Observed
pub mod Ownership
use monitoring_service.Prelude.{
  ℕ, Bool, ◌&&◌, Option, none, some, List, true, false, leb, ◌==◌, if◌then◌else◌,
}
use monitoring_service.Prelude.Text.{Text}
use monitoring_service.Prelude.Tables.{count_where}
use monitoring_service.Model.{Endpoint, Database}
use monitoring_service.Validation.{
  Network, Validated, valid, value_error, ◌>>=◌, validate_check_url, interval_in_range,
}
use monitoring_service.Store.{
  Outcome, returns, integrity_error, Response, body, http_exception, uncaught, Patch, unset, null,
  set, EndpointPatch, add_endpoint, update_endpoint_in_db, delete_endpoint_in_db,
}
use monitoring_service.Store.Status.{
  EndpointRead, get_endpoint_with_status, get_endpoints_with_status,
}

-- MAX_ENDPOINTS_PER_USER and OVERDUE_GRACE_SECONDS of app/config.py.
pub record Settings : Type 0 where
  pub max_endpoints_per_user : ℕ
  pub overdue_grace_seconds : ℕ

-- `EndpointRead` of a new endpoint: the fields that a row does not have take their defaults.
abbrev pub fresh_read : Endpoint → EndpointRead
fresh_read e = record {
  id = e.id;
  url = e.url;
  interval_seconds = e.interval_seconds;
  is_active = e.is_active;
  next_check_at = e.next_check_at;
  latest_status_code = none;
  latest_checked_at = none;
  is_overdue = false;
}

unfoldable pub check_interval_patch : Patch ℕ → Bool
check_interval_patch (set interval) = interval_in_range interval
check_interval_patch _ = true

module _ (network : Network) where
  -- `EndpointCreate`: the URL and the interval that the model holds.
  unfoldable pub endpoint_create : Text → ℕ → Validated Text
  endpoint_create url interval =
      if interval_in_range interval then validate_check_url network url else value_error

  unfoldable pub check_url_patch : Patch Text → Validated (Patch Text)
  check_url_patch unset = valid unset
  check_url_patch null = valid null
  check_url_patch (set url) = do url' ← validate_check_url network url; valid (set url')

  -- `EndpointUpdate`
  unfoldable pub endpoint_update : EndpointPatch → Validated EndpointPatch
  endpoint_update p =
      if check_interval_patch p.interval_seconds
      then (do url' ← check_url_patch p.url; valid (record p { url = url' }))
      else value_error

  -- `add_endpoint` raises no `ValueError` on a valid model but for the missing user.
  unfoldable pub set_endpoint :
      Settings → ℕ → ℕ → ℕ → Text → ℕ → Database → Database × Response EndpointRead
  set_endpoint settings now db_now user_id url interval db = elim (endpoint_create url interval) [
    | value_error ↦ (db, http_exception 422)
    | valid url' ↦
        if leb settings.max_endpoints_per_user
          (count_where (λ (e : Endpoint). e.user_id == user_id) db.endpoints)
        then (db, http_exception 400)
        else let (db', added) = add_endpoint now db_now user_id url' interval db in
          (db', elim added [ returns e ↦ body (fresh_read e) | _ ↦ http_exception 400 ])
  ]

  unfoldable pub update_endpoint :
      Settings → ℕ → ℕ → ℕ → ℕ → EndpointPatch → Database → Database × Response EndpointRead
  update_endpoint settings now db_now endpoint_id user_id update db =
      elim (endpoint_update update) [
        | value_error ↦ (db, http_exception 422)
        | valid p ↦
            let (db', updated) = update_endpoint_in_db now endpoint_id user_id p db in
            (
              db',
              elim updated [
                | returns none ↦ http_exception 404
                | returns (some _) ↦
                    elim (get_endpoint_with_status settings.overdue_grace_seconds db_now endpoint_id
                      user_id db') [ none ↦ uncaught | some e ↦ body e ]
                | _ ↦ uncaught
              ],
            )
      ]

unfoldable pub get_endpoint : Settings → ℕ → ℕ → ℕ → Database → Response EndpointRead
get_endpoint settings db_now endpoint_id user_id db =
    elim (get_endpoint_with_status settings.overdue_grace_seconds db_now endpoint_id user_id db) [
      | none ↦ http_exception 404
      | some e ↦ body e
    ]

-- `limit: int = Query(le=100, ge=1)`
unfoldable pub get_all_endpoints :
    Settings → ℕ → ℕ → ℕ → ℕ → Database → Response (List EndpointRead)
get_all_endpoints settings db_now limit offset user_id db =
    if leb 1 limit && leb limit 100
    then body
        (get_endpoints_with_status settings.overdue_grace_seconds db_now user_id limit offset db)
    else http_exception 422

unfoldable pub delete_endpoint : ℕ → ℕ → Database → Database × Response {0} Unit
delete_endpoint endpoint_id user_id db =
    let (db', deleted) = delete_endpoint_in_db endpoint_id user_id db in
    (db', if deleted then body tt else http_exception 404)
