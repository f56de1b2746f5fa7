-- ===== src/Store/Integrity/Users.antt =====
-- app/models.py and app/db.py: the keys and the emails of the users.
use monitoring_service.Prelude.{
  ℕ, ◌+◌, ◌<◌, ◌≡◌, ◌≢◌, ap, inl, inr, Bool, false, ◌&&◌, ◌||◌, some, List, [], ◌∷◌, ◌++◌, arith,
  ◌==◌, All, Bool-cases, Option-cases,
}
use monitoring_service.Prelude.Text.{Text, text_eq_refl}
use monitoring_service.Prelude.Tables.{first_where, All-append, All-mono, All-first_where}
use monitoring_service.Model.{User, Endpoint, Database}
use monitoring_service.Dispatcher.Claim.Spacing.{DistinctEndpoints}
use monitoring_service.Store.Integrity.Keys.{Reachable-DistinctEndpoints}
use monitoring_service.Dispatcher.Frame.{perform_check-SameSettings}
use monitoring_service.Dispatcher.Claim.{dispatch_due_checks}
use monitoring_service.Store.{
  EndpointPatch, add_user, email_taken, add_endpoint, update_endpoint_in_db, delete_endpoint_in_db,
  cascade_delete, get_owned_endpoint, is_null, user_exists,
}
use monitoring_service.Store.Alerts.{
  add_alert_to_db, update_alert_in_db, delete_alert_in_db, endpoint_exists,
}
use monitoring_service.Alerts.{mark_alert_undelivered}
use monitoring_service.Store.Integrity.Drawn.{drawn-perform_check}
use monitoring_service.Store.Integrity.Reachable.{
  Step, user_added, endpoint_added, endpoint_updated, endpoint_deleted, alert_added, alert_updated,
  alert_deleted, checked, dispatched, purged, alert_undelivered, Reachable, start, next,
}

-- No two users have one key, or one email.
abbrev pub DistinctUsers : List User → Type 0
DistinctUsers [] = Unit
DistinctUsers (u ∷ us) = All (λ x. (x.id ≢ u.id) × (x.email ≢ u.email)) us × DistinctUsers us

-- A user that some query has found is found by its key.
pub found_by_id :
    (test : User → Bool) (us : List User) (u : User)
    → DistinctUsers us
    → first_where test us ≡ some u
    → first_where (λ (x : User). x.id == u.id) us ≡ some u
found_by_id test [] u d h = cc
found_by_id test (x ∷ us) u d h = elim (Bool-cases (test x)) [
  | inl t ↦ ground arith
  | inr t ↦
      let later : first_where test us ≡ some u = ground arith in
      let found = All-first_where (λ y. (y.id ≢ x.id) × (y.email ≢ x.email)) test us u d.0 later in
      ground (arith, found.0.0, found_by_id test us u d.1 later)
]

free_email :
    (email : Text) (us : List User)
    → email_taken email us ≡ false
    → All (λ (u : User). email ≢ u.email) us
free_email email [] h = tt
free_email email (u ∷ us) h =
    ((λ e. cc (text_eq_refl email, e, h)), free_email email us (ground arith))

Distinct-append :
    (us : List User) (new : User)
    → All (λ u. u.id < new.id) us
    → All (λ u. new.email ≢ u.email) us
    → DistinctUsers us
    → DistinctUsers (us ++ new ∷ [])
Distinct-append [] new b f d = (tt, tt)
Distinct-append (u ∷ us) new b f d = (
  All-append (λ x. (x.id ≢ u.id) × (x.email ≢ u.email)) us (new ∷ []) d.0
      (((λ e. ground arith), f.0), tt),
  Distinct-append us new b.1 f.1 d.1,
)

abbrev UsersKeyed : Database → Type 0
UsersKeyed db = DistinctUsers db.users × All (λ (u : User). u.id < db.seq.user_seq) db.users

add_user-UsersKeyed :
    (email hashed_password : Text) (created_at : ℕ) (db : Database)
    → UsersKeyed db
    → UsersKeyed (add_user email hashed_password created_at db).0
unfolding add_user
add_user-UsersKeyed email hashed_password created_at db h =
    let later =
      All-mono (λ (u : User). u.id < db.seq.user_seq) (λ (u : User). u.id < db.seq.user_seq + 1)
        db.users (λ u l. omega (arith, l)) h.1 in
    elim (Bool-cases (email_taken email db.users)) [
      | inl e ↦ rw e (h.0, later)
      | inr e ↦ rw e (
        Distinct-append db.users _ h.1 (free_email email db.users e) h.0,
        All-append (λ (u : User). u.id < db.seq.user_seq + 1) db.users _ later (omega arith, tt),
      )
    ]

update_endpoint-UsersKeyed :
    (now k u : ℕ) (p : EndpointPatch) (db : Database)
    → UsersKeyed db
    → UsersKeyed (update_endpoint_in_db now k u p db).0
unfolding update_endpoint_in_db
update_endpoint-UsersKeyed now k u p db h = elim (Option-cases (get_owned_endpoint k u db)) [
  | inl e ↦ rw (e, update_endpoint_in_db) h
  | inr (x, e) ↦
      elim (Bool-cases (is_null p.interval_seconds || is_null p.is_active || is_null p.url)) [
        | inl n ↦ rw (e, n, update_endpoint_in_db) h
        | inr n ↦ rw (e, n, update_endpoint_in_db) h
      ]
]

Step-UsersKeyed : {db db' : Database} → Step db db' → UsersKeyed db → UsersKeyed db'
unfolding mark_alert_undelivered add_endpoint delete_endpoint_in_db cascade_delete add_alert_to_db
    update_alert_in_db delete_alert_in_db dispatch_due_checks
Step-UsersKeyed (user_added a b c db) h = add_user-UsersKeyed a b c db h
Step-UsersKeyed (endpoint_added a b u d e db) h = elim (Bool-cases (user_exists u db)) [
  | inl e ↦ rw e h
  | inr e ↦ rw e h
]
Step-UsersKeyed (endpoint_updated a b c p db) h = update_endpoint-UsersKeyed a b c p db h
Step-UsersKeyed (endpoint_deleted k u db) h = elim (Option-cases (get_owned_endpoint k u db)) [
  | inl e ↦ rw (e, delete_endpoint_in_db) h
  | inr (x, e) ↦ rw (e, delete_endpoint_in_db) h
]
Step-UsersKeyed (alert_added a b c d k u db) h =
    elim (Bool-cases (user_exists u db && endpoint_exists k db)) [ inl e ↦ rw e h | inr e ↦ rw e h ]
Step-UsersKeyed (alert_updated a b c alert p db found) h =
    elim (Bool-cases
      (is_null p.threshold || is_null p.channel || is_null p.target || is_null p.is_active)) [
        | inl n ↦ rw n h
        | inr n ↦ rw n h
      ]
Step-UsersKeyed (alert_deleted a b c alert db found) h = h
Step-UsersKeyed (checked run w) h =
    rw
      (
        ap (λ (q : ℕ × ℕ). q.0) (drawn-perform_check run w),
        (perform_check-SameSettings run w).users,
      )
      h
Step-UsersKeyed (dispatched d db) h = elim (Bool-cases d.commits) [
  | inl e ↦ rw e h
  | inr e ↦ rw e h
]
Step-UsersKeyed (purged a b c d db left total e) h = h
Step-UsersKeyed (alert_undelivered c db) h = h

-- In every database that the program's calls lead to, no two users have one key or one email.
pub Reachable-DistinctUsers : {db : Database} → Reachable db → DistinctUsers db.users
Reachable-DistinctUsers r = (go r).0
  where
    go : {db : Database} → Reachable db → UsersKeyed db
    go start = (tt, tt)
    go (next r s) = Step-UsersKeyed s (go r)

-- In every database that the program's calls lead to, no two users have one key or one email, no two
-- endpoints have one key, and the next key of an endpoint is above all of them.
pub Reachable-DistinctKeys :
    {db : Database}
    → Reachable db
    → DistinctUsers db.users
      × DistinctEndpoints db.endpoints
      × All (λ (e : Endpoint). e.id < db.seq.endpoint_seq) db.endpoints
Reachable-DistinctKeys r =
    let (distinct, below) = Reachable-DistinctEndpoints r in
    (Reachable-DistinctUsers r, distinct, below)
