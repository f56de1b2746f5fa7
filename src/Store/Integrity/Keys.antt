-- ===== src/Store/Integrity/Keys.antt =====
-- app/models.py and app/db.py: the keys of the endpoints and the sequence that they come from.
use monitoring_service.Prelude.{
  ℕ, ◌+◌, ◌<◌, ◌≡◌, ◌≢◌, ap, refl, inl, inr, Bool, ◌&&◌, ◌||◌, List, [], ◌∷◌, ◌++◌, arith, ◌==◌,
  All, Bool-cases, Option-cases, if◌then◌else◌,
}
use monitoring_service.Prelude.Text.{Text}
use monitoring_service.Prelude.Tables.{
  select, update_where, All-append, All-mono, All-select, All-update_where,
}
use monitoring_service.Model.{Endpoint, Database}
use monitoring_service.Dispatcher.{World, CheckRun, perform_check}
use monitoring_service.Dispatcher.Frame.{perform_check-SameSettings}
use monitoring_service.Dispatcher.Claim.{Dispatch, is_due, claim, dispatch_due_checks}
use monitoring_service.Dispatcher.Claim.Spacing.{DistinctEndpoints}
use monitoring_service.Store.{
  EndpointPatch, add_user, email_taken, add_endpoint, apply_patch, update_endpoint_in_db,
  delete_endpoint_in_db, cascade_delete, get_owned_endpoint, is_null, user_exists,
}
use monitoring_service.Store.Alerts.{
  add_alert_to_db, update_alert_in_db, delete_alert_in_db, endpoint_exists,
}
use monitoring_service.Alerts.{mark_alert_undelivered}
use monitoring_service.Store.Integrity.Drawn.{drawn-perform_check}
use monitoring_service.Store.Integrity.Reachable.{
  Step, user_added, endpoint_added, endpoint_updated, endpoint_deleted, alert_added, alert_updated,
  alert_deleted, checked, dispatched, purged, alert_undelivered, Reachable, start, next,
}

-- The keys of the rows are distinct, and the sequence has passed them all.
abbrev IsKeyed : ℕ → List Endpoint → Type 0
IsKeyed bound es = DistinctEndpoints es × All (λ (e : Endpoint). e.id < bound) es

Distinct-append :
    (es : List Endpoint) (new : Endpoint)
    → All (λ (e : Endpoint). e.id < new.id) es
    → DistinctEndpoints es
    → DistinctEndpoints (es ++ new ∷ [])
Distinct-append [] new b d = (tt, tt)
Distinct-append (e ∷ es) new b d = (
  All-append (λ (x : Endpoint). x.id ≢ e.id) es (new ∷ []) d.0 ((λ h. ground arith), tt),
  Distinct-append es new b.1 d.1,
)

Distinct-update_where :
    (test : Endpoint → Bool) (change : Endpoint → Endpoint) (es : List Endpoint)
    → ((e : Endpoint) → (change e).id ≡ e.id)
    → DistinctEndpoints es
    → DistinctEndpoints (update_where test change es)
Distinct-update_where test change [] k d = tt
Distinct-update_where test change (e ∷ es) k d =
    let same : (if test e then change e else e).id ≡ e.id = ground (arith, k e) in
    (
      rw same
          (All-update_where (λ (x : Endpoint). x.id ≢ e.id) test change es (λ x n. rw (k x) n) d.0),
      Distinct-update_where test change es k d.1,
    )

Distinct-select :
    (test : Endpoint → Bool) (es : List Endpoint)
    → DistinctEndpoints es
    → DistinctEndpoints (select test es)
Distinct-select test [] d = tt
Distinct-select test (e ∷ es) d =
    ground
      (arith, All-select (λ (x : Endpoint). x.id ≢ e.id) test es d.0, Distinct-select test es d.1)

IsKeyed-update_where :
    (bound : ℕ) (test : Endpoint → Bool) (change : Endpoint → Endpoint) (es : List Endpoint)
    → ((e : Endpoint) → (change e).id ≡ e.id)
    → IsKeyed bound es
    → IsKeyed bound (update_where test change es)
IsKeyed-update_where bound test change es k h = (
  Distinct-update_where test change es k h.0,
  All-update_where (λ (e : Endpoint). e.id < bound) test change es (λ e l. rw (k e) l) h.1,
)

abbrev KeyedIn : Database → Type 0
KeyedIn db = IsKeyed db.seq.endpoint_seq db.endpoints

add_endpoint-KeyedIn :
    (now db_now u : ℕ) (url : Text) (interval : ℕ) (db : Database)
    → KeyedIn db
    → KeyedIn (add_endpoint now db_now u url interval db).0
unfolding add_endpoint
add_endpoint-KeyedIn now db_now u url interval db h =
    let later =
      All-mono (λ (e : Endpoint). e.id < db.seq.endpoint_seq)
        (λ (e : Endpoint). e.id < db.seq.endpoint_seq + 1) db.endpoints (λ e l. omega (arith, l))
        h.1 in
    elim (Bool-cases (user_exists u db)) [
      | inl e ↦ rw e (
        Distinct-append db.endpoints _ h.1 h.0,
        All-append (λ (x : Endpoint). x.id < db.seq.endpoint_seq + 1) db.endpoints _ later
            (omega arith, tt),
      )
      | inr e ↦ rw e (h.0, later)
    ]

pub id-apply_patch : (now : ℕ) (p : EndpointPatch) (e : Endpoint) → (apply_patch now p e).id ≡ e.id
unfolding apply_patch
id-apply_patch now p e = ground arith

update_endpoint-KeyedIn :
    (now k u : ℕ) (p : EndpointPatch) (db : Database)
    → KeyedIn db
    → KeyedIn (update_endpoint_in_db now k u p db).0
unfolding update_endpoint_in_db
update_endpoint-KeyedIn now k u p db h = elim (Option-cases (get_owned_endpoint k u db)) [
  | inl e ↦ rw (e, update_endpoint_in_db) h
  | inr (x, e) ↦
      elim (Bool-cases (is_null p.interval_seconds || is_null p.is_active || is_null p.url)) [
        | inl n ↦ rw (e, n, update_endpoint_in_db) h
        | inr n ↦
            rw (e, n, update_endpoint_in_db)
              (IsKeyed-update_where db.seq.endpoint_seq (λ (x : Endpoint). x.id == k)
                (apply_patch now p) db.endpoints (id-apply_patch now p) h)
      ]
]

delete_endpoint-KeyedIn :
    (k u : ℕ) (db : Database) → KeyedIn db → KeyedIn (delete_endpoint_in_db k u db).0
unfolding delete_endpoint_in_db cascade_delete
delete_endpoint-KeyedIn k u db h = elim (Option-cases (get_owned_endpoint k u db)) [
  | inl e ↦ rw (e, delete_endpoint_in_db) h
  | inr (x, e) ↦
      rw (e, delete_endpoint_in_db)
        (Distinct-select _ db.endpoints h.0, All-select _ _ db.endpoints h.1)
]

perform_check-KeyedIn :
    (run : CheckRun) (w : World) → KeyedIn w.db → KeyedIn (perform_check run w).0.db
perform_check-KeyedIn run w h =
    rw
      (
        ap (λ (q : ℕ × ℕ). q.1) (drawn-perform_check run w),
        (perform_check-SameSettings run w).endpoints,
      )
      h

dispatch-KeyedIn :
    (d : Dispatch) (db : Database) → KeyedIn db → KeyedIn (dispatch_due_checks d db).0
unfolding dispatch_due_checks claim
dispatch-KeyedIn d db h = elim (Bool-cases d.commits) [
  | inl e ↦ rw e (
      IsKeyed-update_where db.seq.endpoint_seq (is_due d.now) (claim d.now) db.endpoints (λ x. refl)
        h)
  | inr e ↦ rw e h
]

Step-KeyedIn : {db db' : Database} → Step db db' → KeyedIn db → KeyedIn db'
unfolding mark_alert_undelivered add_user add_alert_to_db update_alert_in_db delete_alert_in_db
Step-KeyedIn (user_added a b c db) h = elim (Bool-cases (email_taken a db.users)) [
  | inl e ↦ rw e h
  | inr e ↦ rw e h
]
Step-KeyedIn (endpoint_added a b c d e db) h = add_endpoint-KeyedIn a b c d e db h
Step-KeyedIn (endpoint_updated a b c p db) h = update_endpoint-KeyedIn a b c p db h
Step-KeyedIn (endpoint_deleted a b db) h = delete_endpoint-KeyedIn a b db h
Step-KeyedIn (alert_added a b c d k u db) h =
    elim (Bool-cases (user_exists u db && endpoint_exists k db)) [ inl e ↦ rw e h | inr e ↦ rw e h ]
Step-KeyedIn (alert_updated a b c alert p db found) h =
    elim (Bool-cases
      (is_null p.threshold || is_null p.channel || is_null p.target || is_null p.is_active)) [
        | inl n ↦ rw n h
        | inr n ↦ rw n h
      ]
Step-KeyedIn (alert_deleted a b c alert db found) h = h
Step-KeyedIn (checked run w) h = perform_check-KeyedIn run w h
Step-KeyedIn (dispatched d db) h = dispatch-KeyedIn d db h
Step-KeyedIn (purged a b c d db left total e) h = h
Step-KeyedIn (alert_undelivered c db) h = h

Reachable-KeyedIn : {db : Database} → Reachable db → KeyedIn db
Reachable-KeyedIn start = (tt, tt)
Reachable-KeyedIn (next r s) = Step-KeyedIn s (Reachable-KeyedIn r)

-- In every database that the program's calls lead to, no two endpoints have one key, and the next
-- key is above all of them.
pub Reachable-DistinctEndpoints :
    {db : Database}
    → Reachable db
    → DistinctEndpoints db.endpoints
      × All (λ (e : Endpoint). e.id < db.seq.endpoint_seq) db.endpoints
Reachable-DistinctEndpoints r = Reachable-KeyedIn r
