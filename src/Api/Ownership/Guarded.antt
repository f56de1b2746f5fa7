-- ===== src/Api/Ownership/Guarded.antt =====
-- app/api.py and app/db.py: the databases that the routes and the tasks lead to, where the route of a
-- new alert has asked for its endpoint among the user's.
use monitoring_service.Prelude.{ℕ, ◌≡◌, inl, inr, Bool, ◌&&◌, some, Bool-cases, Option-cases}
use monitoring_service.Prelude.Text.{Text}
use monitoring_service.Prelude.Tables.{All-append, All-select}
use monitoring_service.Model.{AlertChannel, Endpoint, Database, empty}
use monitoring_service.Model.Int.{ℤ}
use monitoring_service.Validation.{Network, Validated-cases, check_target_matches_channel}
use monitoring_service.Dispatcher.Frame.{perform_check-SameSettings}
use monitoring_service.Alerts.{mark_alert_undelivered}
use monitoring_service.Store.{add_user, email_taken, get_owned_endpoint, user_exists}
use monitoring_service.Store.Alerts.{add_alert_to_db, delete_alert_in_db, endpoint_exists}
use monitoring_service.Store.Tenancy.{found-BelongsTo}
use monitoring_service.Store.Integrity.Keys.{Reachable-DistinctEndpoints}
use monitoring_service.Store.Integrity.Reachable.{
  Step, user_added, endpoint_added, endpoint_updated, endpoint_deleted, alert_added, alert_updated,
  alert_deleted, checked, dispatched, purged, alert_undelivered, Reachable, start, next,
}
use monitoring_service.Api.Alerts.{add_alert}
use monitoring_service.Api.Ownership.{
  Matches, Coherent, Coherent-add_endpoint, Coherent-update_endpoint, Coherent-delete_endpoint,
  Coherent-update_alert, Coherent-dispatch,
}

-- Any step but the statement that adds an alert, which only the route calls.
abbrev pub AddsNoAlert : {db db' : Database} → Step db db' → Type 0
AddsNoAlert (alert_added threshold channel target is_active endpoint_id user_id db) = ⊥
AddsNoAlert _ = Unit

pub data Guarded (network : Network) : Database → Type 0 where
  fresh : Guarded network empty
  stepped :
      {db db' : Database}
      → Guarded network db
      → (s : Step db db') → AddsNoAlert s
      → Guarded network db'
  alert_requested :
      (threshold : ℤ) (channel : AlertChannel) (target : Text) (is_active : Bool)
      (endpoint_id user_id : ℕ) (db : Database)
      → Guarded network db
      → Guarded network
          (add_alert network threshold channel target is_active endpoint_id user_id db).0

Coherent-add_alert_to_db :
    (threshold : ℤ) (channel : AlertChannel) (target : Text) (is_active : Bool)
    (endpoint_id user_id : ℕ) (e : Endpoint) (db : Database)
    → Reachable db
    → get_owned_endpoint endpoint_id user_id db ≡ some e
    → Coherent db
    → Coherent (add_alert_to_db threshold channel target is_active endpoint_id user_id db).0
unfolding add_alert_to_db get_owned_endpoint
Coherent-add_alert_to_db threshold channel target is_active k u e db r found h =
    elim (Bool-cases (user_exists u db && endpoint_exists k db)) [
      | inl x ↦ rw x (
          All-append (Matches db.endpoints) db.configs _ h
            (found-BelongsTo k u db.endpoints e (Reachable-DistinctEndpoints r).0 found, tt))
      | inr x ↦ rw x h
    ]

module _ (network : Network) where
  add_alert-keeps :
      (P : Database → Type 0) (threshold : ℤ) (channel : AlertChannel) (target : Text)
      (is_active : Bool) (endpoint_id user_id : ℕ) (db : Database)
      → P db
      → ((target' : Text) (e : Endpoint)
          → get_owned_endpoint endpoint_id user_id db ≡ some e
          → P (add_alert_to_db threshold channel target' is_active endpoint_id user_id db).0)
      → P (add_alert network threshold channel target is_active endpoint_id user_id db).0
  unfolding add_alert
  add_alert-keeps P threshold channel target is_active k u db h f =
      elim (Validated-cases (check_target_matches_channel network channel target)) [
        | inl refused ↦ rw (refused, add_alert) h
        | inr (target', v) ↦ elim (Option-cases (get_owned_endpoint k u db)) [
          | inl missing ↦ rw (v, missing, add_alert) h
          | inr (e, found) ↦ rw (v, found, add_alert) (f target' e found)
        ]
      ]

  Guarded-Reachable : {db : Database} → Guarded network db → Reachable db
  Guarded-Reachable fresh = start
  Guarded-Reachable (stepped g s n) = next (Guarded-Reachable g) s
  Guarded-Reachable (alert_requested t c g a k u db r) =
      let before = Guarded-Reachable r in
      add_alert-keeps Reachable t c g a k u db before
        (λ target' e found. next before (alert_added t c target' a k u db))

  Step-Coherent :
      {db db' : Database}
      → (s : Step db db') → AddsNoAlert s
      → Reachable db
      → Coherent db
      → Coherent db'
  unfolding add_user delete_alert_in_db mark_alert_undelivered
  Step-Coherent (user_added a b c db) n r h = elim (Bool-cases (email_taken a db.users)) [
    | inl e ↦ rw e h
    | inr e ↦ rw e h
  ]
  Step-Coherent (endpoint_added a b c d e db) n r h = Coherent-add_endpoint a b c d e db r h
  Step-Coherent (endpoint_updated a b c p db) n r h = Coherent-update_endpoint a b c p db h
  Step-Coherent (endpoint_deleted a b db) n r h = Coherent-delete_endpoint a b db h
  Step-Coherent (alert_added a b c d e f db) n r h = elim n [ ]
  Step-Coherent (alert_updated a b c alert p db found) n r h = Coherent-update_alert alert p db h
  Step-Coherent (alert_deleted a b c alert db found) n r h = All-select _ _ db.configs h
  Step-Coherent (checked run w) n r h =
      rw ((perform_check-SameSettings run w).endpoints, (perform_check-SameSettings run w).configs)
        h
  Step-Coherent (dispatched d db) n r h = Coherent-dispatch d db h
  Step-Coherent (purged a b c d db left total e) n r h = h
  Step-Coherent (alert_undelivered c db) n r h = h

  -- Whatever requests and tasks follow each other from the empty tables on, in whatever order and
  -- with whatever arguments and outcomes: every alert configuration belongs to the user whose
  -- endpoint it is about.
  pub Guarded-Coherent : {db : Database} → Guarded network db → Coherent db
  Guarded-Coherent fresh = tt
  Guarded-Coherent (stepped g s n) = Step-Coherent s n (Guarded-Reachable g) (Guarded-Coherent g)
  Guarded-Coherent (alert_requested t c g a k u db r) =
      let before = Guarded-Coherent r in
      add_alert-keeps Coherent t c g a k u db before (λ target' e found.
        Coherent-add_alert_to_db t c target' a k u e db (Guarded-Reachable r) found before)
