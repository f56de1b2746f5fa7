-- ===== src/Store/Integrity/Operations.antt =====
-- app/db.py: the statements on users and endpoints and the foreign keys.
use monitoring_service.Prelude.{ℕ, ◌≡◌, inl, inr, refl, ◌||◌, ◌==◌, Bool-cases, Option-cases}
use monitoring_service.Prelude.Tables.{
  update_where, All-append, All-mono, All-select, All-select_mono, All-update_where,
}
use monitoring_service.Prelude.Text.{Text}
use monitoring_service.Model.{User, Endpoint, Database, Sequences}
use monitoring_service.Store.{
  add_user, email_taken, EndpointPatch, reschedules, add_endpoint, apply_patch,
  update_endpoint_in_db, get_owned_endpoint, delete_endpoint_in_db, cascade_delete, is_null,
  user_exists,
}
use monitoring_service.Store.Integrity.{
  HasKey, HasKey-append, HasKey-delete, HasKey-update, IsReferential, not-true, left_config,
  user_exists→HasKey,
}

pub other_sequences :
    (s : Sequences) (db : Database) → IsReferential db → IsReferential (record db { seq = s })
other_sequences s db ok = record {
  endpoint_users = ok.endpoint_users;
  result_endpoints = ok.result_endpoints;
  config_users = ok.config_users;
  config_endpoints = ok.config_endpoints;
  state_configs = ok.state_configs;
}

-- A new user, or a refused one, leaves each reference to a row that is there.
pub add_user-IsReferential :
    (email hashed_password : Text) (created_at : ℕ) (db : Database)
    → IsReferential db
    → IsReferential (add_user email hashed_password created_at db).0
unfolding add_user
add_user-IsReferential email hashed_password created_at db ok =
    elim (Bool-cases (email_taken email db.users)) [
      | inl e ↦ rw e (other_sequences _ db ok)
      | inr e ↦ rw e (record {
        endpoint_users =
            All-mono _ _ db.endpoints (λ x. HasKey-append (λ (u : User). u.id) x.user_id db.users _)
              ok.endpoint_users;
        result_endpoints = ok.result_endpoints;
        config_users =
            All-mono _ _ db.configs (λ c. HasKey-append (λ (u : User). u.id) c.user_id db.users _)
              ok.config_users;
        config_endpoints = ok.config_endpoints;
        state_configs = ok.state_configs;
      })
    ]

-- `add_endpoint` keeps every reference to a row that is there, whether or not it succeeds.
pub add_endpoint-IsReferential :
    (now db_now user_id : ℕ) (url : Text) (interval : ℕ) (db : Database)
    → IsReferential db
    → IsReferential (add_endpoint now db_now user_id url interval db).0
unfolding add_endpoint
add_endpoint-IsReferential now db_now user_id url interval db ok =
    elim (Bool-cases (user_exists user_id db)) [
      | inr e ↦ rw e (other_sequences _ db ok)
      | inl e ↦ rw e (record {
        endpoint_users =
            All-append _ db.endpoints _ ok.endpoint_users (user_exists→HasKey user_id db e, tt);
        result_endpoints =
            All-mono _ _ db.results
              (λ r. HasKey-append (λ (x : Endpoint). x.id) r.endpoint_id db.endpoints _)
              ok.result_endpoints;
        config_users = ok.config_users;
        config_endpoints =
            All-mono _ _ db.configs
              (λ c. HasKey-append (λ (x : Endpoint). x.id) c.endpoint_id db.endpoints _)
              ok.config_endpoints;
        state_configs = ok.state_configs;
      })
    ]

cascade-IsReferential :
    (i : ℕ) (db : Database) → IsReferential db → IsReferential (cascade_delete i db)
unfolding cascade_delete
cascade-IsReferential i db ok = record {
  endpoint_users = All-select _ _ db.endpoints ok.endpoint_users;
  result_endpoints =
      All-select_mono _ _ _ db.results
        (λ r t h.
          HasKey-delete (λ (x : Endpoint). x.id) r.endpoint_id i db.endpoints (not-true _ t) h)
        ok.result_endpoints;
  config_users = All-select _ _ db.configs ok.config_users;
  config_endpoints =
      All-select_mono _ _ _ db.configs
        (λ c t h.
          HasKey-delete (λ (x : Endpoint). x.id) c.endpoint_id i db.endpoints (not-true _ t) h)
        ok.config_endpoints;
  state_configs =
      All-select_mono _ _ _ db.states
        (λ s t h. left_config s.config_id i db.configs h (not-true _ t)) ok.state_configs;
}

-- Deleting an endpoint, owned or not, keeps every reference to a row that is there: no result,
-- configuration or state is left behind.
pub delete_endpoint-IsReferential :
    (endpoint_id user_id : ℕ) (db : Database)
    → IsReferential db
    → IsReferential (delete_endpoint_in_db endpoint_id user_id db).0
unfolding delete_endpoint_in_db
delete_endpoint-IsReferential endpoint_id user_id db ok =
    elim (Option-cases (get_owned_endpoint endpoint_id user_id db)) [
      | inl e ↦ rw (e, delete_endpoint_in_db) ok
      | inr (x, e) ↦ rw (e, delete_endpoint_in_db) (cascade-IsReferential endpoint_id db ok)
    ]

keys-apply_patch :
    (now : ℕ) (p : EndpointPatch) (e : Endpoint)
    → ((apply_patch now p e).id ≡ e.id) × ((apply_patch now p e).user_id ≡ e.user_id)
unfolding apply_patch
keys-apply_patch now p e = elim (Bool-cases (reschedules p e)) [
  | inl h ↦ rw h (refl, refl)
  | inr h ↦ rw h (refl, refl)
]

edit-IsReferential :
    (now i : ℕ) (p : EndpointPatch) (db : Database)
    → IsReferential db
    → IsReferential (record db {
      endpoints = update_where (λ (x : Endpoint). x.id == i) (apply_patch now p) db.endpoints;
    })
edit-IsReferential now i p db ok =
    let kept = λ (k : ℕ).
      HasKey-update (λ (x : Endpoint). x.id) k (λ (x : Endpoint). x.id == i) (apply_patch now p)
        db.endpoints (λ x. (keys-apply_patch now p x).0) in
    record {
      endpoint_users =
          All-update_where (λ (e : Endpoint). HasKey (λ (u : User). u.id) e.user_id db.users)
            (λ (x : Endpoint). x.id == i) (apply_patch now p) db.endpoints
            (λ x h. rw (keys-apply_patch now p x).1 h) ok.endpoint_users;
      result_endpoints = All-mono _ _ db.results (λ r. kept r.endpoint_id) ok.result_endpoints;
      config_users = ok.config_users;
      config_endpoints = All-mono _ _ db.configs (λ c. kept c.endpoint_id) ok.config_endpoints;
      state_configs = ok.state_configs;
    }

-- Updating an endpoint keeps every reference to a row that is there, on each branch.
pub update_endpoint-IsReferential :
    (now endpoint_id user_id : ℕ) (p : EndpointPatch) (db : Database)
    → IsReferential db
    → IsReferential (update_endpoint_in_db now endpoint_id user_id p db).0
unfolding update_endpoint_in_db
update_endpoint-IsReferential now endpoint_id user_id p db ok =
    elim (Option-cases (get_owned_endpoint endpoint_id user_id db)) [
      | inl e ↦ rw (e, update_endpoint_in_db) ok
      | inr (x, e) ↦
          elim (Bool-cases (is_null p.interval_seconds || is_null p.is_active || is_null p.url)) [
            | inl n ↦ rw (e, n, update_endpoint_in_db) ok
            | inr n ↦ rw (e, n, update_endpoint_in_db) (edit-IsReferential now endpoint_id p db ok)
          ]
    ]
