-- ===== src/Store/Tenancy.antt =====
-- app/db.py: one user's endpoints across another user's calls.
use monitoring_service.Prelude.{
  ℕ, ◌≡◌, ◌≢◌, ◌∙◌, sym, refl, inl, inr, ◌&&◌, ◌||◌, some, List, [], ◌∷◌, arith, ◌==◌, All,
  Bool-cases, Option-cases,
}
use monitoring_service.Prelude.Tables.{
  All-mono, All-first_where, select, first_where, update_where, delete_where,
}
use monitoring_service.Model.{Endpoint, Database}
use monitoring_service.Dispatcher.Claim.Spacing.{DistinctEndpoints}
use monitoring_service.Store.{
  EndpointPatch, get_owned_endpoint, apply_patch, update_endpoint_in_db, delete_endpoint_in_db,
  cascade_delete, is_null,
}

-- The endpoints of one user.
abbrev pub owned_by : ℕ → List Endpoint → List Endpoint
owned_by u = select (λ (e : Endpoint). e.user_id == u)

-- A row with this key belongs to this user.
abbrev pub BelongsTo : ℕ → ℕ → Endpoint → Type 0
BelongsTo k v e = e.id ≡ k → e.user_id ≡ v

pub found-BelongsTo :
    (k v : ℕ) (es : List Endpoint) (e : Endpoint)
    → DistinctEndpoints es
    → first_where (λ (x : Endpoint). x.id == k && x.user_id == v) es ≡ some e
    → All (BelongsTo k v) es
found-BelongsTo k v [] e d h = tt
found-BelongsTo k v (x ∷ es) e d h = elim (Bool-cases (x.id == k && x.user_id == v)) [
  | inl t ↦
      let (x_id, x_user) : (x.id ≡ k) × (x.user_id ≡ v) = ground arith in
      (
        (λ _. x_user),
        All-mono (λ (y : Endpoint). y.id ≢ x.id) (BelongsTo k v) es
            (λ y n i. elim (n (i ∙ sym x_id)) [ ]) d.0,
      )
  | inr f ↦
      let later : first_where (λ (y : Endpoint). y.id == k && y.user_id == v) es ≡ some e =
        ground arith in
      let (e_new, t) =
        All-first_where (λ (y : Endpoint). y.id ≢ x.id)
          (λ (y : Endpoint). y.id == k && y.user_id == v) es e d.0 later in
      let e_id : e.id ≡ k = ground arith in
      ((λ x_id. elim (e_new (e_id ∙ sym x_id)) [ ]), found-BelongsTo k v es e d.1 later)
]

owned-update_where :
    (k u v : ℕ) (change : Endpoint → Endpoint) (es : List Endpoint)
    → u ≢ v
    → ((e : Endpoint) → (change e).user_id ≡ e.user_id)
    → All (BelongsTo k v) es
    → owned_by u (update_where (λ (x : Endpoint). x.id == k) change es) ≡ owned_by u es
owned-update_where k u v change [] n c h = refl
owned-update_where k u v change (e ∷ es) n c h =
    ground (arith, c e, owned-update_where k u v change es n c h.1)

owned-delete_where :
    (k u v : ℕ) (es : List Endpoint)
    → u ≢ v
    → All (BelongsTo k v) es
    → owned_by u (delete_where (λ (x : Endpoint). x.id == k) es) ≡ owned_by u es
owned-delete_where k u v [] n h = refl
owned-delete_where k u v (e ∷ es) n h = ground (arith, owned-delete_where k u v es n h.1)

pub user_id-apply_patch :
    (now : ℕ) (p : EndpointPatch) (e : Endpoint) → (apply_patch now p e).user_id ≡ e.user_id
unfolding apply_patch
user_id-apply_patch now p e = ground arith

-- Whatever one user's update does, the endpoints of every other user stay as they were, where
-- endpoint keys are unique.
pub owned-update_endpoint :
    (now endpoint_id u v : ℕ) (p : EndpointPatch) (db : Database)
    → DistinctEndpoints db.endpoints
    → u ≢ v
    → owned_by u (update_endpoint_in_db now endpoint_id v p db).0.endpoints
      ≡ owned_by u db.endpoints
unfolding update_endpoint_in_db get_owned_endpoint
owned-update_endpoint now k u v p db d n =
    elim (Option-cases (first_where (λ (x : Endpoint). x.id == k && x.user_id == v) db.endpoints)) [
      | inl e ↦ rw (e, update_endpoint_in_db, get_owned_endpoint) refl
      | inr (x, e) ↦
          let others =
            owned-update_where k u v (apply_patch now p) db.endpoints n (user_id-apply_patch now p)
              (found-BelongsTo k v db.endpoints x d e) in
          elim (Bool-cases (is_null p.interval_seconds || is_null p.is_active || is_null p.url)) [
            | inl f ↦ rw (e, f, update_endpoint_in_db, get_owned_endpoint) refl
            | inr f ↦ rw (e, f, update_endpoint_in_db, get_owned_endpoint) others
          ]
    ]

-- Whatever one user's deletion does, the endpoints of every other user stay as they were, where
-- endpoint keys are unique.
pub owned-delete_endpoint :
    (endpoint_id u v : ℕ) (db : Database)
    → DistinctEndpoints db.endpoints
    → u ≢ v
    → owned_by u (delete_endpoint_in_db endpoint_id v db).0.endpoints ≡ owned_by u db.endpoints
unfolding delete_endpoint_in_db get_owned_endpoint cascade_delete
owned-delete_endpoint k u v db d n =
    elim (Option-cases (first_where (λ (x : Endpoint). x.id == k && x.user_id == v) db.endpoints)) [
      | inl e ↦ rw (e, delete_endpoint_in_db, get_owned_endpoint) refl
      | inr (x, e) ↦
          rw (e, delete_endpoint_in_db, get_owned_endpoint)
            (owned-delete_where k u v db.endpoints n (found-BelongsTo k v db.endpoints x d e))
    ]

-- Whatever one user's update or deletion of an endpoint does, the endpoints of every other user stay
-- as they were, where endpoint keys are unique.
pub owned_kept :
    (now endpoint_id u v : ℕ) (p : EndpointPatch) (db : Database)
    → DistinctEndpoints db.endpoints
    → u ≢ v
    → (owned_by u (update_endpoint_in_db now endpoint_id v p db).0.endpoints
        ≡ owned_by u db.endpoints)
      × (owned_by u (delete_endpoint_in_db endpoint_id v db).0.endpoints ≡ owned_by u db.endpoints)
owned_kept now endpoint_id u v p db d n = (
  owned-update_endpoint now endpoint_id u v p db d n,
  owned-delete_endpoint endpoint_id u v db d n,
)
