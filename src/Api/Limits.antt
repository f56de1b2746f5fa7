-- ===== src/Api/Limits.antt =====
-- app/api.py: the number of a user's endpoints and their intervals across the routes that write.
use monitoring_service.Prelude.{
  ℕ, ◌+◌, ◌≤◌, ◌<◌, ◌≡◌, ap, inl, inr, true, ◌||◌, arith, leb, ◌==◌, ==_iff, All, Bool-cases,
  Option-cases, if◌then◌else◌,
}
use monitoring_service.Prelude.Text.{Text}
use monitoring_service.Prelude.Tables.{
  count_where, count_where-append, All-append, All-update_where,
}
use monitoring_service.Model.{Endpoint, Database}
use monitoring_service.Validation.{
  Validated-cases, Network, valid, validate_check_url, interval_in_range,
}
use monitoring_service.Store.{
  EndpointPatch, Patch, unset, null, set, patched, is_null, reschedules, add_endpoint, apply_patch,
  update_endpoint_in_db, get_owned_endpoint, user_exists,
}
use monitoring_service.Api.{
  Settings, endpoint_create, endpoint_update, check_interval_patch, set_endpoint, update_endpoint,
}

-- The number of a user's endpoints, as `set_endpoint` counts it.
abbrev pub endpoint_count : ℕ → Database → ℕ
endpoint_count u db = count_where (λ (e : Endpoint). e.user_id == u) db.endpoints

count-add_endpoint :
    (now db_now u v interval : ℕ) (url : Text) (db : Database)
    → endpoint_count v (add_endpoint now db_now u url interval db).0
      ≤ endpoint_count v db + (if u == v then 1 else 0)
unfolding add_endpoint
count-add_endpoint now db_now u v interval url db = elim (Bool-cases (user_exists u db)) [
  | inr e ↦ rw e (omega arith)
  | inl e ↦
      rw e
        (rw (count_where-append (λ (x : Endpoint). x.user_id == v) db.endpoints _) (ground arith))
]

added_limit :
    (now db_now u v interval : ℕ) (url : Text) (db : Database) (most : ℕ)
    → endpoint_count u db < most
    → endpoint_count v db ≤ most
    → endpoint_count v (add_endpoint now db_now u url interval db).0 ≤ most
added_limit now db_now u v interval url db most room h =
    let added = count-add_endpoint now db_now u v interval url db in
    elim (Bool-cases (u == v)) [
      | inl e ↦ ground (arith, added, ap (λ x. endpoint_count x db) ((==_iff u v).0 e))
      | inr e ↦ ground (arith, added)
    ]

-- A request for a new endpoint leaves every user within the limit, one request after the other.
pub set_endpoint_limit :
    (network : Network) (settings : Settings) (now db_now u : ℕ) (url : Text) (interval : ℕ)
    (db : Database) (v : ℕ)
    → endpoint_count v db ≤ settings.max_endpoints_per_user
    → endpoint_count v (set_endpoint network settings now db_now u url interval db).0
      ≤ settings.max_endpoints_per_user
unfolding set_endpoint
set_endpoint_limit network settings now db_now u url interval db v h =
    elim (Validated-cases (endpoint_create network url interval)) [
      | inl e ↦ rw (e, set_endpoint) h
      | inr (url', e) ↦
          elim (Bool-cases (leb settings.max_endpoints_per_user (endpoint_count u db))) [
            | inl full ↦ rw (e, full, set_endpoint) h
            | inr room ↦
                rw (e, room, set_endpoint)
                  (added_limit now db_now u v interval url' db settings.max_endpoints_per_user
                    (ground arith) h)
          ]
    ]

abbrev pub InRange : Endpoint → Type 0
InRange e = interval_in_range e.interval_seconds ≡ true

add_endpoint-InRange :
    (now db_now u interval : ℕ) (url : Text) (db : Database)
    → interval_in_range interval ≡ true
    → All InRange db.endpoints
    → All InRange (add_endpoint now db_now u url interval db).0.endpoints
unfolding add_endpoint
add_endpoint-InRange now db_now u interval url db ok h = elim (Bool-cases (user_exists u db)) [
  | inr e ↦ rw e h
  | inl e ↦ rw e (All-append InRange db.endpoints _ h (ok, tt))
]

patched-InRange :
    (p : Patch ℕ) (old : ℕ)
    → check_interval_patch p ≡ true
    → interval_in_range old ≡ true
    → interval_in_range (patched p old) ≡ true
unfolding check_interval_patch
patched-InRange unset old c h = h
patched-InRange null old c h = h
patched-InRange (set i) old c h = c

accepted_interval :
    (network : Network) (update p : EndpointPatch)
    → endpoint_update network update ≡ valid p
    → check_interval_patch p.interval_seconds ≡ true
unfolding endpoint_update
accepted_interval network update p v = ground arith

apply_patch-InRange :
    (now : ℕ) (p : EndpointPatch)
    → check_interval_patch p.interval_seconds ≡ true
    → (e : Endpoint) → InRange e
    → InRange (apply_patch now p e)
unfolding apply_patch
apply_patch-InRange now p c e h =
    let ok = patched-InRange p.interval_seconds e.interval_seconds c h in
    elim (Bool-cases (reschedules p e)) [ inl r ↦ rw r ok | inr r ↦ rw r ok ]

update_in_db-InRange :
    (now k u : ℕ) (p : EndpointPatch) (db : Database)
    → check_interval_patch p.interval_seconds ≡ true
    → All InRange db.endpoints
    → All InRange (update_endpoint_in_db now k u p db).0.endpoints
unfolding update_endpoint_in_db
update_in_db-InRange now k u p db c h = elim (Option-cases (get_owned_endpoint k u db)) [
  | inl e ↦ rw (e, update_endpoint_in_db) h
  | inr (x, e) ↦
      elim (Bool-cases (is_null p.interval_seconds || is_null p.is_active || is_null p.url)) [
        | inl n ↦ rw (e, n, update_endpoint_in_db) h
        | inr n ↦
            rw (e, n, update_endpoint_in_db)
              (All-update_where InRange (λ (x : Endpoint). x.id == k) (apply_patch now p)
                db.endpoints (apply_patch-InRange now p c) h)
      ]
]

-- A request to create an endpoint, whatever it asks, leaves every interval in the table from 10 to
-- 86400 seconds.
pub set_endpoint-InRange :
    (network : Network) (settings : Settings) (now db_now u interval : ℕ) (url : Text)
    (db : Database)
    → All InRange db.endpoints
    → All InRange (set_endpoint network settings now db_now u url interval db).0.endpoints
unfolding set_endpoint endpoint_create
set_endpoint-InRange network settings now db_now u interval url db h =
    elim (Bool-cases (interval_in_range interval)) [
      | inr e ↦ rw (e, set_endpoint) h
      | inl e ↦ elim (Validated-cases (validate_check_url network url)) [
        | inl f ↦ rw (e, f, set_endpoint) h
        | inr (url', f) ↦
            elim (Bool-cases (leb settings.max_endpoints_per_user (endpoint_count u db))) [
              | inl full ↦ rw (e, f, full, set_endpoint) h
              | inr room ↦
                  rw (e, f, room, set_endpoint)
                    (add_endpoint-InRange now db_now u interval url' db e h)
            ]
      ]
    ]

-- A request to update an endpoint, whatever it asks, leaves every interval in the table from 10 to
-- 86400 seconds.
pub update_endpoint-InRange :
    (network : Network) (settings : Settings) (now db_now k u : ℕ) (update : EndpointPatch)
    (db : Database)
    → All InRange db.endpoints
    → All InRange (update_endpoint network settings now db_now k u update db).0.endpoints
unfolding update_endpoint
update_endpoint-InRange network settings now db_now k u update db h =
    elim (Validated-cases (endpoint_update network update)) [
      | inl e ↦ rw (e, update_endpoint) h
      | inr (p, e) ↦
          rw (e, update_endpoint)
            (update_in_db-InRange now k u p db (accepted_interval network update p e) h)
    ]

-- Requests to create or to update an endpoint, whatever they ask, leave every interval in the table
-- from 10 to 86400 seconds.
pub routes-InRange :
    (network : Network) (settings : Settings) (now db_now k u interval : ℕ) (url : Text)
    (update : EndpointPatch) (db : Database)
    → All InRange db.endpoints
    → All InRange (set_endpoint network settings now db_now u url interval db).0.endpoints
      × All InRange (update_endpoint network settings now db_now k u update db).0.endpoints
routes-InRange network settings now db_now k u interval url update db h = (
  set_endpoint-InRange network settings now db_now u interval url db h,
  update_endpoint-InRange network settings now db_now k u update db h,
)
