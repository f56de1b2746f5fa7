-- ===== src/Api/Ownership.antt =====
-- app/api.py and app/db.py: whose endpoint an alert configuration is about.
pub mod Guarded
pub mod Told
mod Examples
use monitoring_service.Prelude.{
  ℕ, ◌+◌, ◌<◌, ◌≡◌, ◌∙◌, sym, refl, inl, inr, Bool, true, false, ◌&&◌, ◌||◌, none, some, List, [],
  ◌∷◌, ◌++◌, arith, ◌==◌, All, Bool-cases, Option-cases, if◌then◌else◌,
}
use monitoring_service.Prelude.Text.{Text}
use monitoring_service.Prelude.Tables.{
  update_where, All-append, All-mono, All-select, All-update_where,
}
use monitoring_service.Model.{AlertChannel, Endpoint, AlertConfig, Database, empty}
use monitoring_service.Model.Int.{ℤ}
use monitoring_service.Validation.{Network, valid, value_error, check_target_matches_channel}
use monitoring_service.Dispatcher.{World, CheckRun, perform_check}
use monitoring_service.Dispatcher.Frame.{perform_check-SameSettings}
use monitoring_service.Dispatcher.Claim.{Dispatch, is_due, claim, dispatch_due_checks}
use monitoring_service.Dispatcher.Claim.Spacing.{DistinctEndpoints}
use monitoring_service.Alerts.{mark_alert_undelivered}
use monitoring_service.Store.{
  EndpointPatch, add_user, email_taken, add_endpoint, apply_patch, update_endpoint_in_db,
  delete_endpoint_in_db, cascade_delete, get_owned_endpoint, is_null, user_exists,
}
use monitoring_service.Store.Alerts.{
  AlertPatch, add_alert_to_db, apply_alert_patch, update_alert_in_db, delete_alert_in_db,
  endpoint_exists,
}
use monitoring_service.Store.Tenancy.{BelongsTo, found-BelongsTo, user_id-apply_patch}
use monitoring_service.Store.Integrity.{HasKey, IsReferential}
use monitoring_service.Store.Integrity.Keys.{Reachable-DistinctEndpoints, id-apply_patch}
use monitoring_service.Store.Integrity.Reachable.{
  Step, user_added, endpoint_added, endpoint_updated, endpoint_deleted, alert_added, alert_updated,
  alert_deleted, checked, dispatched, purged, alert_undelivered, Reachable, start, next,
  Reachable-IsReferential,
}
use monitoring_service.Api.Alerts.{add_alert}

-- The endpoint of a configuration belongs to the configuration's user.
abbrev pub Matches : List Endpoint → AlertConfig → Type 0
Matches es c = All (BelongsTo c.endpoint_id c.user_id) es

abbrev pub CoherentRows : List AlertConfig → List Endpoint → Type 0
CoherentRows cs es = All (Matches es) cs

abbrev pub Coherent : Database → Type 0
Coherent db = CoherentRows db.configs db.endpoints

endpoints_updated :
    (test : Endpoint → Bool) (change : Endpoint → Endpoint) (cs : List AlertConfig)
    (es : List Endpoint)
    → ((e : Endpoint) → (change e).id ≡ e.id)
    → ((e : Endpoint) → (change e).user_id ≡ e.user_id)
    → CoherentRows cs es
    → CoherentRows cs (update_where test change es)
endpoints_updated test change cs es i u h =
    All-mono (Matches es) (Matches (update_where test change es)) cs
      (λ c.
        All-update_where (BelongsTo c.endpoint_id c.user_id) test change es
          (λ e b k. u e ∙ b (sym (i e) ∙ k)))
      h

HasKey-below :
    (i bound : ℕ) (es : List Endpoint)
    → All (λ (e : Endpoint). e.id < bound) es
    → HasKey (λ (e : Endpoint). e.id) i es
    → i < bound
HasKey-below i bound [] h k = elim k [ ]
HasKey-below i bound (e ∷ es) h (inl k) = ground arith
HasKey-below i bound (e ∷ es) h (inr k) = HasKey-below i bound es h.1 k

-- A new endpoint has a key that no configuration refers to.
endpoint_appended :
    (new : Endpoint) (cs : List AlertConfig) (es : List Endpoint)
    → All (λ (e : Endpoint). e.id < new.id) es
    → All (λ (c : AlertConfig). HasKey (λ (e : Endpoint). e.id) c.endpoint_id es) cs
    → CoherentRows cs es
    → CoherentRows cs (es ++ new ∷ [])
endpoint_appended new [] es b r h = tt
endpoint_appended new (c ∷ cs) es b r h =
    let below = HasKey-below c.endpoint_id new.id es b r.0 in
    (
      All-append (BelongsTo c.endpoint_id c.user_id) es (new ∷ []) h.0 ((λ k. ground arith), tt),
      endpoint_appended new cs es b r.1 h.1,
    )

pub Coherent-add_endpoint :
    (now db_now u : ℕ) (url : Text) (interval : ℕ) (db : Database)
    → Reachable db
    → Coherent db
    → Coherent (add_endpoint now db_now u url interval db).0
unfolding add_endpoint
Coherent-add_endpoint now db_now u url interval db r h = elim (Bool-cases (user_exists u db)) [
  | inl e ↦ rw e (
      endpoint_appended _ db.configs db.endpoints (Reachable-DistinctEndpoints r).1
        (Reachable-IsReferential r).config_endpoints h)
  | inr e ↦ rw e h
]

pub Coherent-update_endpoint :
    (now k u : ℕ) (p : EndpointPatch) (db : Database)
    → Coherent db
    → Coherent (update_endpoint_in_db now k u p db).0
unfolding update_endpoint_in_db
Coherent-update_endpoint now k u p db h = elim (Option-cases (get_owned_endpoint k u db)) [
  | inl e ↦ rw (e, update_endpoint_in_db) h
  | inr (x, e) ↦
      elim (Bool-cases (is_null p.interval_seconds || is_null p.is_active || is_null p.url)) [
        | inl n ↦ rw (e, n, update_endpoint_in_db) h
        | inr n ↦
            rw (e, n, update_endpoint_in_db)
              (endpoints_updated (λ (x : Endpoint). x.id == k) (apply_patch now p) db.configs
                db.endpoints (id-apply_patch now p) (user_id-apply_patch now p) h)
      ]
]

pub Coherent-delete_endpoint :
    (k u : ℕ) (db : Database) → Coherent db → Coherent (delete_endpoint_in_db k u db).0
unfolding delete_endpoint_in_db cascade_delete
Coherent-delete_endpoint k u db h = elim (Option-cases (get_owned_endpoint k u db)) [
  | inl e ↦ rw (e, delete_endpoint_in_db) h
  | inr (x, e) ↦
      rw (e, delete_endpoint_in_db)
        (All-select _ _ db.configs (
          All-mono (Matches db.endpoints) _ db.configs
            (λ c. All-select (BelongsTo c.endpoint_id c.user_id) _ db.endpoints) h))
]

pub Coherent-update_alert :
    (alert : AlertConfig) (p : AlertPatch) (db : Database)
    → Coherent db
    → Coherent (update_alert_in_db alert p db).0
unfolding update_alert_in_db apply_alert_patch
Coherent-update_alert alert p db h =
    elim (Bool-cases
      (is_null p.threshold || is_null p.channel || is_null p.target || is_null p.is_active)) [
        | inl n ↦ rw n h
        | inr n ↦ rw n (
            All-update_where (Matches db.endpoints) (λ (c : AlertConfig). c.id == alert.id)
              (apply_alert_patch p) db.configs (λ c m. m) h)
      ]

pub Coherent-dispatch :
    (d : Dispatch) (db : Database) → Coherent db → Coherent (dispatch_due_checks d db).0
unfolding dispatch_due_checks claim
Coherent-dispatch d db h = elim (Bool-cases d.commits) [
  | inl e ↦ rw e (
      endpoints_updated (is_due d.now) (claim d.now) db.configs db.endpoints (λ x. refl) (λ x. refl)
        h)
  | inr e ↦ rw e h
]
