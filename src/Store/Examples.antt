-- ===== src/Store/Examples.antt =====
-- Two users with an endpoint each, and the theorems about the store at them.
use monitoring_service.Prelude.{All, ℕ, ◌*◌, ◌≡◌, ◌<◌, refl, true, none, some, [], ◌∷◌}
use monitoring_service.Prelude.Text.{text}
use monitoring_service.Model.{User, Endpoint, CheckResult, Database, empty, second, email}
use monitoring_service.Model.Int.{pos}
use monitoring_service.Dispatcher.{latest_result}
use monitoring_service.Store.{
  EndpointPatch, unset, set, add_user, add_endpoint, update_endpoint_in_db, delete_endpoint_in_db,
  reschedules,
}
use monitoring_service.Store.Alerts.{add_alert_to_db}
use monitoring_service.Store.Status.{is_counted, count_overdue_endpoints}
use monitoring_service.Store.Integrity.{IsReferential}
use monitoring_service.Store.Integrity.Reachable.{
  Reachable, start, next, user_added, endpoint_added, alert_added, endpoint_deleted,
  Reachable-IsReferential,
}
use monitoring_service.Store.Integrity.Users.{DistinctUsers, Reachable-DistinctKeys}
use monitoring_service.Dispatcher.Claim.Spacing.{DistinctEndpoints}
use monitoring_service.Store.Tenancy.{owned_by, owned_kept}

abbrev site : ℕ → Endpoint
site i = record {
  id = i;
  user_id = i;
  url = text "https://a.org";
  interval_seconds = 60;
  is_active = true;
  next_check_at = 0;
  monitoring_since = 0;
}

abbrev answer : CheckResult
answer = record {
  id = 1;
  endpoint_id = 1;
  checked_at = 500 * second;
  status_code = some 200;
  error = none;
  response_time_ms = some 5;
}

abbrev person : ℕ → User
person i = record { id = i; email = text "a"; hashed_password = text "h"; created_at = 0 }

abbrev two_users : Database
two_users = record empty {
  users = person 1 ∷ person 2 ∷ [];
  endpoints = site 1 ∷ site 2 ∷ [];
  results = answer ∷ [];
}

-- one of the two is overdue
one_overdue : count_overdue_endpoints 60 (600 * second) two_users ≡ 1
unfolding count_overdue_endpoints is_counted latest_result
one_overdue = refl

abbrev slower : EndpointPatch
slower = record { interval_seconds = set 100; is_active = unset; url = unset }

slower-reschedules : reschedules slower (site 2) ≡ true
unfolding reschedules
slower-reschedules = refl

abbrev with_user : Database
with_user = (add_user (text "a") (text "h") 0 empty).0

abbrev with_endpoint : Database
with_endpoint = (add_endpoint 0 0 1 (text "https://a.org") 60 with_user).0

abbrev with_alert : Database
with_alert = (add_alert_to_db (pos 3) email (text "a@b.c") true 1 1 with_endpoint).0

calls : Reachable with_alert
calls =
    next
      (next (next start (user_added (text "a") (text "h") 0 empty))
        (endpoint_added 0 0 1 (text "https://a.org") 60 with_user))
      (alert_added (pos 3) email (text "a@b.c") true 1 1 with_endpoint)

Reachable-IsReferential_example : IsReferential (delete_endpoint_in_db 1 1 with_alert).0
Reachable-IsReferential_example =
    Reachable-IsReferential (next calls (endpoint_deleted 1 1 with_alert))

owned_kept_example :
    (owned_by 1 (update_endpoint_in_db 0 2 2 slower two_users).0.endpoints ≡ site 1 ∷ [])
    × (owned_by 1 (delete_endpoint_in_db 2 2 two_users).0.endpoints ≡ site 1 ∷ [])
owned_kept_example = owned_kept 0 2 1 2 slower two_users (((λ e. cc e), tt), (tt, tt)) (λ e. cc e)

Reachable-DistinctKeys_example :
    DistinctUsers with_alert.users
    × DistinctEndpoints with_alert.endpoints
    × All (λ (e : Endpoint). e.id < with_alert.seq.endpoint_seq) with_alert.endpoints
Reachable-DistinctKeys_example = Reachable-DistinctKeys calls
