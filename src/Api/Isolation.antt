-- ===== src/Api/Isolation.antt =====
-- app/api.py: the routes of an endpoint that is another user's.
use monitoring_service.Prelude.{
  ℕ, ◌≡◌, ◌≢◌, ◌∙◌, sym, ap, inl, inr, refl, Bool, false, ◌&&◌, Option, none, some, List, [], ◌∷◌,
  arith, ◌==◌, ==_iff, All, Bool-cases,
}
use monitoring_service.Prelude.Text.{Text}
use monitoring_service.Prelude.Tables.{first_where, delete_where, All-mono}
use monitoring_service.Model.{AlertChannel, Endpoint, Database, endpoint_by_id}
use monitoring_service.Model.Int.{ℤ}
use monitoring_service.Validation.{Network, Validated-cases, check_target_matches_channel}
use monitoring_service.Store.{
  Response, http_exception, EndpointPatch, get_owned_endpoint, update_endpoint_in_db,
  delete_endpoint_in_db, cascade_delete,
}
use monitoring_service.Store.Status.{get_endpoint_with_status}
use monitoring_service.Store.Alerts.{AlertPatch}
use monitoring_service.Dispatcher.Claim.Spacing.{DistinctEndpoints}
use monitoring_service.Analytics.{get_analytics}
use monitoring_service.Api.{
  Settings, endpoint_update, update_endpoint, get_endpoint, delete_endpoint,
}
use monitoring_service.Api.Alerts.{add_alert, get_alerts, update_alert, delete_alert}

same_where :
    (k u : ℕ) (es : List Endpoint)
    → first_where (λ (e : Endpoint). e.user_id == u && e.id == k) es
      ≡ first_where (λ (e : Endpoint). e.id == k && e.user_id == u) es
same_where k u [] = refl
same_where k u (e ∷ es) = ground (arith, same_where k u es)

status-not_owned :
    (grace now k u : ℕ) (db : Database)
    → get_owned_endpoint k u db ≡ none
    → get_endpoint_with_status grace now k u db ≡ none
unfolding get_owned_endpoint get_endpoint_with_status
status-not_owned grace now k u db h = ground (arith, same_where k u db.endpoints)

no_such_key :
    (k u : ℕ) (es : List Endpoint)
    → All (λ (x : Endpoint). x.id ≢ k) es
    → first_where (λ (x : Endpoint). x.id == k && x.user_id == u) es ≡ none
no_such_key k u [] h = refl
no_such_key k u (x ∷ es) h =
    let other : (x.id == k) ≡ false = ground (arith, h.0) in rw other (no_such_key k u es h.1)

-- The row of a key is another user's, so a query for the user's own finds none.
get_owned_endpoint-other :
    (k u : ℕ) (es : List Endpoint) (e : Endpoint)
    → DistinctEndpoints es
    → first_where (λ (x : Endpoint). x.id == k) es ≡ some e
    → e.user_id ≢ u
    → first_where (λ (x : Endpoint). x.id == k && x.user_id == u) es ≡ none
get_owned_endpoint-other k u [] e d h n = refl
get_owned_endpoint-other k u (x ∷ es) e d h n = elim (Bool-cases (x.id == k)) [
  | inl t ↦
      let x_id : x.id ≡ k = (==_iff x.id k).0 t in
      let same : x ≡ e = ground arith in
      let other : x.user_id ≢ u = rw same n in
      let other_user : (x.user_id == u) ≡ false = ground (arith, other) in
      rw (t, other_user)
        (no_such_key k u es (
          All-mono (λ (y : Endpoint). y.id ≢ x.id) (λ (y : Endpoint). y.id ≢ k) es
            (λ y m i. m (i ∙ sym x_id)) d.0))
  | inr t ↦ rw t (get_owned_endpoint-other k u es e d.1 (ground arith) n)
]

get_owned_endpoint-deleted :
    (k u : ℕ) (es : List Endpoint)
    → first_where
        (λ (x : Endpoint). x.id == k && x.user_id == u)
        (delete_where (λ (x : Endpoint). x.id == k) es)
      ≡ none
get_owned_endpoint-deleted k u [] = refl
get_owned_endpoint-deleted k u (x ∷ es) = ground (arith, get_owned_endpoint-deleted k u es)

not_owned :
    (k u : ℕ) (owned : Endpoint) (db : Database)
    → DistinctEndpoints db.endpoints
    → endpoint_by_id k db ≡ some owned
    → owned.user_id ≢ u
    → get_owned_endpoint k u db ≡ none
unfolding get_owned_endpoint
not_owned k u owned db d found n = get_owned_endpoint-other k u db.endpoints owned d found n

not_left : (k u : ℕ) (db : Database) → get_owned_endpoint k u (cascade_delete k db) ≡ none
unfolding get_owned_endpoint cascade_delete
not_left k u db = get_owned_endpoint-deleted k u db.endpoints

-- A route answers as if there were no endpoint of this number, and changes nothing.
abbrev pub Hides : {A : Type 0} → ℕ → Database → (Database → Database × Response A) → Type 0
Hides k db route = ((route db).1 ≡ (route (cascade_delete k db)).1) × ((route db).0 ≡ db)

-- A route that only reads.
abbrev pub reading : {A : Type 0} → (Database → Response A) → Database → Database × Response A
reading route db = (db, route db)

-- Two databases without the user's endpoint: a route gives one answer and changes neither.
abbrev Refuses : {A : Type 0} → ℕ → ℕ → (Database → Database × Response A) → Type 0
Refuses {A} k u route =
    (r : Response A) × ((db : Database) → get_owned_endpoint k u db ≡ none → route db ≡ (db, r))

Refuses-Hides :
    {A : Type 0} (k u : ℕ) (db : Database) (route : Database → Database × Response A)
    → get_owned_endpoint k u db ≡ none
    → Refuses k u route
    → Hides k db route
Refuses-Hides k u db route none_owned (r, refuses) =
    let here = refuses db none_owned in
    let left = refuses (cascade_delete k db) (not_left k u db) in
    (ap (λ x. x.1) here ∙ sym (ap (λ x. x.1) left), ap (λ x. x.0) here)

module _ {Number : Type 0} (percentile_cont : ℕ → List ℕ → Option Number) (percent : ℕ → ℕ → Number)
    (network : Network) (settings : Settings) where
  get_endpoint-Refuses : (db_now k u : ℕ) → Refuses k u (reading (get_endpoint settings db_now k u))
  unfolding get_endpoint
  get_endpoint-Refuses db_now k u = (
    http_exception 404,
    λ db n. rw (status-not_owned settings.overdue_grace_seconds db_now k u db n, get_endpoint) refl,
  )

  update_endpoint-Refuses :
      (now db_now k u : ℕ) (update : EndpointPatch)
      → Refuses k u (update_endpoint network settings now db_now k u update)
  unfolding update_endpoint update_endpoint_in_db
  update_endpoint-Refuses now db_now k u update =
      elim (Validated-cases (endpoint_update network update)) [
        | inl e ↦ (http_exception 422, λ db n. rw (e, update_endpoint) refl)
        | inr (p, e) ↦
            (http_exception 404, λ db n. rw (e, n, update_endpoint, update_endpoint_in_db) refl)
      ]

  delete_endpoint-Refuses : (k u : ℕ) → Refuses k u (delete_endpoint k u)
  unfolding delete_endpoint delete_endpoint_in_db
  delete_endpoint-Refuses k u =
      (http_exception 404, λ db n. rw (n, delete_endpoint, delete_endpoint_in_db) refl)

  get_alerts-Refuses : (k u : ℕ) → Refuses k u (reading (get_alerts network k u))
  unfolding get_alerts
  get_alerts-Refuses k u = (http_exception 404, λ db n. rw (n, get_alerts) refl)

  add_alert-Refuses :
      (threshold : ℤ) (channel : AlertChannel) (target : Text) (is_active : Bool) (k u : ℕ)
      → Refuses k u (add_alert network threshold channel target is_active k u)
  unfolding add_alert
  add_alert-Refuses threshold channel target is_active k u =
      elim (Validated-cases (check_target_matches_channel network channel target)) [
        | inl e ↦ (http_exception 422, λ db n. rw (e, add_alert) refl)
        | inr (t, e) ↦ (http_exception 404, λ db n. rw (e, n, add_alert) refl)
      ]

  update_alert-Refuses : (k a u : ℕ) (p : AlertPatch) → Refuses k u (update_alert network k a u p)
  unfolding update_alert
  update_alert-Refuses k a u p = (http_exception 404, λ db n. rw (n, update_alert) refl)

  delete_alert-Refuses : (k a u : ℕ) → Refuses k u (delete_alert k a u)
  unfolding delete_alert
  delete_alert-Refuses k a u = (http_exception 404, λ db n. rw (n, delete_alert) refl)

  get_analytics-Refuses :
      (k u now : ℕ) → Refuses k u (reading (get_analytics percentile_cont percent k u now))
  unfolding get_analytics
  get_analytics-Refuses k u now = (http_exception 404, λ db n. rw (n, get_analytics) refl)

  -- Where an endpoint is another user's and endpoint keys are unique: every route of its number, for
  -- whatever request, valid or not, gives a user the answer that it would give if the endpoint had
  -- been deleted, and changes nothing. So no answer tells that the endpoint exists.
  pub other_endpoint-Hides :
      (now db_now k a u : ℕ) (owned : Endpoint) (db : Database)
      → DistinctEndpoints db.endpoints
      → endpoint_by_id k db ≡ some owned
      → owned.user_id ≢ u
      → Hides k db (reading (get_endpoint settings db_now k u))
        × ((update : EndpointPatch)
            → Hides k db (update_endpoint network settings now db_now k u update))
        × Hides k db (delete_endpoint k u)
        × Hides k db (reading (get_alerts network k u))
        × ((threshold : ℤ) (channel : AlertChannel) (target : Text) (is_active : Bool)
            → Hides k db (add_alert network threshold channel target is_active k u))
        × ((p : AlertPatch) → Hides k db (update_alert network k a u p))
        × Hides k db (delete_alert k a u)
        × Hides k db (reading (get_analytics percentile_cont percent k u now))
  other_endpoint-Hides now db_now k a u owned db d found n =
      let none_owned = not_owned k u owned db d found n in
      (
        Refuses-Hides k u db _ none_owned (get_endpoint-Refuses db_now k u),
        (λ update.
            Refuses-Hides k u db _ none_owned (update_endpoint-Refuses now db_now k u update)),
        Refuses-Hides k u db _ none_owned (delete_endpoint-Refuses k u),
        Refuses-Hides k u db _ none_owned (get_alerts-Refuses k u),
        (λ threshold channel target is_active.
            Refuses-Hides k u db _ none_owned
              (add_alert-Refuses threshold channel target is_active k u)),
        (λ p. Refuses-Hides k u db _ none_owned (update_alert-Refuses k a u p)),
        Refuses-Hides k u db _ none_owned (delete_alert-Refuses k a u),
        Refuses-Hides k u db _ none_owned (get_analytics-Refuses k u now),
      )
