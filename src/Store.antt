-- ===== src/Store.antt =====
-- app/db.py: the statements on the endpoint table, each a committed transaction.
-- `Outcome` is how such a call ends.
mod Examples
pub mod Status
pub mod Alerts
pub mod Integrity
pub mod Tenancy
use monitoring_service.Prelude.{
  ℕ, ◌+◌, Bool, true, false, not, ◌&&◌, ◌||◌, Option, none, some, List, [], ◌∷◌, ◌++◌, ◌==◌,
  if◌then◌else◌,
}
use monitoring_service.Prelude.Text.{Text, text_eq}
use monitoring_service.Prelude.Tables.{select, first_where, update_where, delete_where}
use monitoring_service.Model.{
  User, Endpoint, CheckResult, AlertConfig, AlertState, Database, Sequences,
}

-- How a call ends: with a value, by a `ValueError`, or by an `IntegrityError` that is not caught.
pub data Outcome (A : Type 0) : Type 0 where
  returns : A → Outcome A
  value_error integrity_error : Outcome A

-- What a handler answers: a body, an `HTTPException` with its status, or an exception that nothing
-- catches, which the server answers with 500.
pub data Response {ℓ} (A : Type ℓ) : Type ℓ where
  body : A → Response A
  http_exception : ℕ → Response A
  uncaught : Response A

-- What an update model holds for a field: nothing, an explicit null, or a value.
pub data Patch (A : Type 0) : Type 0 where
  unset null : Patch A
  set : A → Patch A

abbrev pub patched : {A : Type 0} → Patch A → A → A
patched (set a) old = a
patched _ old = old

abbrev pub is_null : {A : Type 0} → Patch A → Bool
is_null null = true
is_null _ = false

-- `v` differs from the stored value: a null differs from every value.
abbrev pub changes : {A : Type 0} → (A → A → Bool) → Patch A → A → Bool
changes eq unset old = false
changes eq null old = true
changes eq (set a) old = not (eq old a)

abbrev pub bool_eq : Bool → Bool → Bool
bool_eq true b = b
bool_eq false b = not b

abbrev pub user_exists : ℕ → Database → Bool
user_exists i db = elim (first_where (λ (u : User). u.id == i) db.users) [
  | none ↦ false
  | some _ ↦ true
]

abbrev pub email_taken : Text → List User → Bool
email_taken email [] = false
email_taken email (u ∷ us) = text_eq u.email email || email_taken email us

-- The email column is unique; a refused insert has drawn its key.
unfoldable pub add_user : Text → Text → ℕ → Database → Database × Outcome User
add_user email hashed_password created_at db =
    let user : User = record {
      id = db.seq.user_seq;
      email = email;
      hashed_password = hashed_password;
      created_at = created_at;
    } in
    let seq' : Sequences = record db.seq { user_seq = db.seq.user_seq + 1 } in
    if email_taken email db.users
    then (record db { seq = seq' }, integrity_error)
    else (record db { users = db.users ++ user ∷ []; seq = seq' }, returns user)

-- WHERE id = :endpoint_id AND user_id = :user_id
unfoldable pub get_owned_endpoint : ℕ → ℕ → Database → Option Endpoint
get_owned_endpoint endpoint_id user_id db =
    first_where (λ (e : Endpoint). e.id == endpoint_id && e.user_id == user_id) db.endpoints

-- `now` is Python's clock, `db_now` the server default of `monitoring_since`. A sequence is not
-- rolled back. The table refuses a row whose user does not exist.
unfoldable pub add_endpoint : ℕ → ℕ → ℕ → Text → ℕ → Database → Database × Outcome Endpoint
add_endpoint now db_now user_id url interval db =
    let endpoint : Endpoint = record {
      id = db.seq.endpoint_seq;
      user_id = user_id;
      url = url;
      interval_seconds = interval;
      is_active = true;
      next_check_at = now;
      monitoring_since = db_now;
    } in
    let seq' : Sequences = record db.seq { endpoint_seq = db.seq.endpoint_seq + 1 } in
    if user_exists user_id db
    then (record db { endpoints = db.endpoints ++ endpoint ∷ []; seq = seq' }, returns endpoint)
    else (record db { seq = seq' }, value_error)

-- `update_data` of an `EndpointUpdate`.
pub record EndpointPatch : Type 0 where
  pub interval_seconds : Patch ℕ
  pub is_active : Patch Bool
  pub url : Patch Text

-- `_RESCHEDULE_FIELDS & changed.keys()` or `changed.get("is_active") is True`
unfoldable pub reschedules : EndpointPatch → Endpoint → Bool
reschedules p e =
    changes ◌==◌ p.interval_seconds e.interval_seconds
    || changes text_eq p.url e.url
    || (elim p.is_active [ set b ↦ b && not e.is_active | _ ↦ false ])

unfoldable pub apply_patch : ℕ → EndpointPatch → Endpoint → Endpoint
apply_patch now p e =
    let e' : Endpoint = record e {
      interval_seconds = patched p.interval_seconds e.interval_seconds;
      is_active = patched p.is_active e.is_active;
      url = patched p.url e.url;
    } in
    if reschedules p e then record e' { next_check_at = now; monitoring_since = now } else e'

-- A null in a column that admits none is refused at the commit; `returns none` is a missing row.
unfoldable pub update_endpoint_in_db :
    ℕ → ℕ → ℕ → EndpointPatch → Database → Database × Outcome (Option Endpoint)
update_endpoint_in_db now endpoint_id user_id p db =
    elim (get_owned_endpoint endpoint_id user_id db) [
      | none ↦ (db, returns none)
      | some e ↦
          if is_null p.interval_seconds || is_null p.is_active || is_null p.url
          then (db, integrity_error)
          else (
            record db {
              endpoints =
                  update_where (λ (x : Endpoint). x.id == endpoint_id) (apply_patch now p)
                    db.endpoints;
            },
            returns (some (apply_patch now p e)),
          )
    ]

abbrev pub has_config : List AlertConfig → ℕ → Bool
has_config [] c = false
has_config (r ∷ rs) c = r.id == c || has_config rs c

-- ON DELETE CASCADE: the endpoint's results, its configurations, and their states go too.
unfoldable pub cascade_delete : ℕ → Database → Database
cascade_delete endpoint_id db =
    let gone = select (λ (c : AlertConfig). c.endpoint_id == endpoint_id) db.configs in
    record db {
      endpoints = delete_where (λ (e : Endpoint). e.id == endpoint_id) db.endpoints;
      results = delete_where (λ (r : CheckResult). r.endpoint_id == endpoint_id) db.results;
      configs = delete_where (λ (c : AlertConfig). c.endpoint_id == endpoint_id) db.configs;
      states = delete_where (λ (s : AlertState). has_config gone s.config_id) db.states;
    }

-- True is the deleted row, none a missing one.
unfoldable pub delete_endpoint_in_db : ℕ → ℕ → Database → Database × Bool
delete_endpoint_in_db endpoint_id user_id db = elim (get_owned_endpoint endpoint_id user_id db) [
  | none ↦ (db, false)
  | some _ ↦ (cascade_delete endpoint_id db, true)
]
