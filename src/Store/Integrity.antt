-- ===== src/Store/Integrity.antt =====
-- The foreign keys of the tables of app/models.py: each row refers to rows that are there.
pub mod Operations
pub mod AlertOperations
pub mod Checks
pub mod Reachable
pub mod Drawn
pub mod Keys
pub mod Users
use monitoring_service.Prelude.{
  ℕ, ◌+◌, ◌≡◌, ◌≢◌, ◌⊎◌, inl, inr, ap, ◌∙◌, sym, refl, Bool, true, false, not, ◌&&◌, ◌||◌, Option,
  none, some, List, [], ◌∷◌, ◌++◌, arith, ◌==◌, ==_refl, All, Bool-cases, Option-cases,
  if◌then◌else◌,
}
use monitoring_service.Prelude.Tables.{
  select, first_where, update_where, delete_where, All-append, All-mono, All-select,
  All-select_mono, All-update_where,
}
use monitoring_service.Prelude.Text.{Text}
use monitoring_service.Model.{
  AlertChannel, User, Endpoint, CheckResult, AlertConfig, AlertState, Database, Sequences,
}
use monitoring_service.Model.Int.{ℤ}
use monitoring_service.Dispatcher.Alerting.{new_state}
use monitoring_service.Store.{
  EndpointPatch, reschedules, add_endpoint, apply_patch, update_endpoint_in_db, get_owned_endpoint,
  delete_endpoint_in_db, cascade_delete, has_config, is_null, user_exists,
}
use monitoring_service.Store.Alerts.{
  AlertPatch, add_alert_to_db, apply_alert_patch, update_alert_in_db, delete_alert_in_db,
  endpoint_exists,
}

module _ {A : Type 0} (key : A → ℕ) where
  -- Some row has this key.
  abbrev pub HasKey : ℕ → List A → Type 0
  HasKey i [] = ⊥
  HasKey i (x ∷ xs) = (key x ≡ i) ⊎ HasKey i xs

  pub HasKey-append : (i : ℕ) (xs ys : List A) → HasKey i xs → HasKey i (xs ++ ys)
  HasKey-append i [] ys h = elim h [ ]
  HasKey-append i (x ∷ xs) ys (inl e) = inl e
  HasKey-append i (x ∷ xs) ys (inr h) = inr (HasKey-append i xs ys h)

  -- Another row's deletion leaves it.
  pub HasKey-delete :
      (i k : ℕ) (xs : List A)
      → (i == k) ≡ false
      → HasKey i xs
      → HasKey i (delete_where (λ x. key x == k) xs)
  HasKey-delete i k [] ne h = elim h [ ]
  HasKey-delete i k (x ∷ xs) ne (inl e) = ground arith
  HasKey-delete i k (x ∷ xs) ne (inr h) = ground (arith, HasKey-delete i k xs ne h)

  -- A change that keeps the keys leaves it.
  pub HasKey-update :
      (i : ℕ) (test : A → Bool) (change : A → A) (xs : List A)
      → ((x : A) → key (change x) ≡ key x)
      → HasKey i xs
      → HasKey i (update_where test change xs)
  HasKey-update i test change [] k h = elim h [ ]
  HasKey-update i test change (x ∷ xs) k (inl e) = ground (arith, k x)
  HasKey-update i test change (x ∷ xs) k (inr h) = inr (HasKey-update i test change xs k h)

  pub HasKey-last : (xs : List A) (x : A) → HasKey (key x) (xs ++ x ∷ [])
  HasKey-last [] x = inl refl
  HasKey-last (y ∷ xs) x = inr (HasKey-last xs x)

  HasKey-first_where :
      (i : ℕ) (xs : List A) (x : A) → first_where (λ x. key x == i) xs ≡ some x → HasKey i xs
  HasKey-first_where i [] x e = cc
  HasKey-first_where i (y ∷ xs) x e = ground (arith, HasKey-first_where i xs x)

-- Each reference of a row is to a row that is there, and each state has a configuration.
pub record IsReferential (db : Database) : Type 0 where
  pub endpoint_users :
      All (λ (e : Endpoint). HasKey (λ (u : User). u.id) e.user_id db.users) db.endpoints
  pub result_endpoints :
      All
        (λ (r : CheckResult). HasKey (λ (e : Endpoint). e.id) r.endpoint_id db.endpoints)
        db.results
  pub config_users :
      All (λ (c : AlertConfig). HasKey (λ (u : User). u.id) c.user_id db.users) db.configs
  pub config_endpoints :
      All
        (λ (c : AlertConfig). HasKey (λ (e : Endpoint). e.id) c.endpoint_id db.endpoints)
        db.configs
  pub state_configs :
      All (λ (s : AlertState). HasKey (λ (c : AlertConfig). c.id) s.config_id db.configs) db.states

pub not-true : (b : Bool) → not b ≡ true → b ≡ false
not-true true h = cc
not-true false h = refl

pub left_config :
    (i k : ℕ) (cs : List AlertConfig)
    → HasKey (λ (c : AlertConfig). c.id) i cs
    → has_config (select (λ (c : AlertConfig). c.endpoint_id == k) cs) i ≡ false
    → HasKey
        (λ (c : AlertConfig). c.id)
        i
        (delete_where (λ (c : AlertConfig). c.endpoint_id == k) cs)
left_config i k [] h e = elim h [ ]
left_config i k (c ∷ cs) (inl h) e = ground arith
left_config i k (c ∷ cs) (inr h) e = ground (arith, left_config i k cs h)

pub user_exists→HasKey :
    (i : ℕ) (db : Database) → user_exists i db ≡ true → HasKey (λ (u : User). u.id) i db.users
user_exists→HasKey i db h = elim (Option-cases (first_where (λ (u : User). u.id == i) db.users)) [
  | inl e ↦ cc
  | inr (u, e) ↦ HasKey-first_where (λ (u : User). u.id) i db.users u e
]

pub endpoint_exists→HasKey :
    (i : ℕ) (db : Database)
    → endpoint_exists i db ≡ true
    → HasKey (λ (e : Endpoint). e.id) i db.endpoints
endpoint_exists→HasKey i db h =
    elim (Option-cases (first_where (λ (e : Endpoint). e.id == i) db.endpoints)) [
      | inl e ↦ cc
      | inr (u, e) ↦ HasKey-first_where (λ (e : Endpoint). e.id) i db.endpoints u e
    ]
