-- ===== src/Dispatcher/Claim/Spacing.antt =====
-- app/dispatcher.py, `dispatch_due_checks`: the times of the tasks that a sequence of runs sends.
use monitoring_service.Prelude.{
  ℕ, ◌+◌, ◌*◌, ◌≤◌, ◌<◌, ◌≡◌, ◌≢◌, ◌⊎◌, inl, inr, refl, ap, ◌∙◌, true, not, ◌&&◌, Option, none,
  some, List, [], ◌∷◌, map, arith, leb, ◌==◌, ==_iff, All, Bool-cases, if◌then◌else◌,
}
use monitoring_service.Prelude.Tables.{select, update_where, first_where, count_where}
use monitoring_service.Model.{Endpoint, Database, second, endpoint_by_id}
use monitoring_service.Dispatcher.Claim.{
  is_due, claim, Dispatch, PendingCheck, pending_check, dispatch_due_checks,
}

-- A claimed row is due again only when its interval has passed.
claimed_again :
    (now later : ℕ) (e : Endpoint)
    → is_due later (claim now e) ≡ (e.is_active && leb (now + e.interval_seconds * second) later)
unfolding is_due claim
claimed_again now later e = refl

-- A second claim, at any later clock before the claimed rows' intervals have passed, finds the
-- rows that have become due since, and none that the first has claimed.
select-claimed :
    (now later : ℕ) (rows : List Endpoint)
    → All (λ (e : Endpoint). later < now + e.interval_seconds * second) rows
    → select (is_due later) (update_where (is_due now) (claim now) rows)
      ≡ select (λ e. is_due later e && not (is_due now e)) rows
unfolding is_due claim
select-claimed now later [] h = refl
select-claimed now later (e ∷ rows) h = ground (arith, select-claimed now later rows h.1)

-- After a claim at `d.now`, a run at a later clock that falls within the interval of every
-- endpoint sends tasks for the endpoints that were not due at the claim, and for no other.
pub second_dispatch :
    (d d' : Dispatch) (db : Database)
    → d.commits ≡ true
    → d'.commits ≡ true
    → All (λ (e : Endpoint). d'.now < d.now + e.interval_seconds * second) db.endpoints
    → (dispatch_due_checks d' (dispatch_due_checks d db).0).1
      ≡ map
          (pending_check d'.probe_time)
          (select (λ e. is_due d'.now e && not (is_due d.now e)) db.endpoints)
unfolding dispatch_due_checks
second_dispatch d d' db c c' h =
    rw (c, c') (ap (map (pending_check d'.probe_time)) (select-claimed d.now d'.now db.endpoints h))

abbrev pub DistinctEndpoints : List Endpoint → Type 0
DistinctEndpoints [] = Unit
DistinctEndpoints (e ∷ es) = All (λ x. x.id ≢ e.id) es × DistinctEndpoints es

-- The tasks that a run sends for one endpoint.
abbrev pub sent_for : ℕ → List PendingCheck → ℕ
sent_for i = count_where (λ (p : PendingCheck). p.endpoint_id == i)

abbrev row_of : ℕ → List Endpoint → Option Endpoint
row_of i = first_where (λ (e : Endpoint). e.id == i)

abbrev pub due_count : ℕ → Option Endpoint → ℕ
due_count now none = 0
due_count now (some e) = if is_due now e then 1 else 0

abbrev pub claimed : ℕ → Option Endpoint → Option Endpoint
claimed now none = none
claimed now (some e) = some (if is_due now e then claim now e else e)

sent_for-absent :
    (i probe_time now : ℕ) (rows : List Endpoint)
    → All (λ x. x.id ≢ i) rows
    → sent_for i (map (pending_check probe_time) (select (is_due now) rows)) ≡ 0
sent_for-absent i probe_time now [] h = refl
sent_for-absent i probe_time now (e ∷ rows) h =
    ground (arith, sent_for-absent i probe_time now rows h.1)

sent_for-select :
    (i probe_time now : ℕ) (rows : List Endpoint)
    → DistinctEndpoints rows
    → sent_for i (map (pending_check probe_time) (select (is_due now) rows))
      ≡ due_count now (row_of i rows)
sent_for-select i probe_time now [] h = refl
sent_for-select i probe_time now (e ∷ rows) h = elim (Bool-cases (e.id == i)) [
  | inl own ↦
      let same = (==_iff e.id i).0 own in
      ground (arith, sent_for-absent i probe_time now rows (rw (← same) h.0))
  | inr other ↦ ground (arith, sent_for-select i probe_time now rows h.1)
]

row_of-claim :
    (i now : ℕ) (rows : List Endpoint)
    → row_of i (update_where (is_due now) (claim now) rows) ≡ claimed now (row_of i rows)
unfolding claim
row_of-claim i now [] = refl
row_of-claim i now (e ∷ rows) = ground (arith, row_of-claim i now rows)

All-ids-claim :
    (i now : ℕ) (rows : List Endpoint)
    → All (λ x. x.id ≢ i) rows
    → All (λ x. x.id ≢ i) (update_where (is_due now) (claim now) rows)
unfolding claim
All-ids-claim i now [] h = tt
All-ids-claim i now (e ∷ rows) h = ground (arith, All-ids-claim i now rows h.1)

DistinctEndpoints-claim :
    (now : ℕ) (rows : List Endpoint)
    → DistinctEndpoints rows
    → DistinctEndpoints (update_where (is_due now) (claim now) rows)
unfolding claim
DistinctEndpoints-claim now [] h = tt
DistinctEndpoints-claim now (e ∷ rows) h =
    let others = All-ids-claim e.id now rows h.0 in
    let rest = DistinctEndpoints-claim now rows h.1 in
    elim (Bool-cases (is_due now e)) [
      | inl due ↦ rw due (others, rest)
      | inr waits ↦ rw waits (others, rest)
    ]

-- A run that commits sends one task for an endpoint that is due, and none for any other.
pub sent-dispatch :
    (i : ℕ) (d : Dispatch) (db : Database)
    → DistinctEndpoints db.endpoints
    → sent_for i (dispatch_due_checks d db).1
      ≡ (if d.commits then due_count d.now (endpoint_by_id i db) else 0)
unfolding dispatch_due_checks
sent-dispatch i d db h = ground (arith, sent_for-select i d.probe_time d.now db.endpoints h)

pub endpoint-dispatch :
    (i : ℕ) (d : Dispatch) (db : Database)
    → endpoint_by_id i (dispatch_due_checks d db).0
      ≡ (if d.commits then claimed d.now (endpoint_by_id i db) else endpoint_by_id i db)
unfolding dispatch_due_checks
endpoint-dispatch i d db = ground (arith, row_of-claim i d.now db.endpoints)

pub DistinctEndpoints-dispatch :
    (d : Dispatch) (db : Database)
    → DistinctEndpoints db.endpoints
    → DistinctEndpoints (dispatch_due_checks d db).0.endpoints
unfolding dispatch_due_checks
DistinctEndpoints-dispatch d db h = elim (Bool-cases d.commits) [
  | inl c ↦ rw c (DistinctEndpoints-claim d.now db.endpoints h)
  | inr c ↦ rw c h
]

-- One run either sends one task for an endpoint and moves its schedule, or does neither.
dispatch-cases :
    (i : ℕ) (d : Dispatch) (db : Database) (e : Endpoint)
    → DistinctEndpoints db.endpoints
    → endpoint_by_id i db ≡ some e
    → ((sent_for i (dispatch_due_checks d db).1 ≡ 1)
        × (endpoint_by_id i (dispatch_due_checks d db).0 ≡ some (claim d.now e))
        × (e.next_check_at ≤ d.now))
      ⊎ ((sent_for i (dispatch_due_checks d db).1 ≡ 0)
          × (endpoint_by_id i (dispatch_due_checks d db).0 ≡ some e))
unfolding is_due
dispatch-cases i d db e h found = elim (Bool-cases (d.commits && is_due d.now e)) [
  | inl sent ↦ inl (
    sent-dispatch i d db h ∙ rw found (ground arith),
    endpoint-dispatch i d db ∙ rw found (ground arith),
    ground arith,
  )
  | inr not_sent ↦ inr (
    sent-dispatch i d db h ∙ rw found (ground arith),
    endpoint-dispatch i d db ∙ rw found (ground arith),
  )
]

-- The clocks of the runs that send a task for the endpoint `i`.
unfoldable pub claim_times : ℕ → List Dispatch → Database → List ℕ
claim_times i [] db = []
claim_times i (d ∷ ds) db =
    let rest = claim_times i ds (dispatch_due_checks d db).0 in
    if sent_for i (dispatch_due_checks d db).1 == 0 then rest else d.now ∷ rest

-- The first time is not before `from`, and each later one not before `gap` after the last.
abbrev pub Spaced : ℕ → ℕ → List ℕ → Type 0
Spaced gap from [] = Unit
Spaced gap from (t ∷ ts) = (from ≤ t) × Spaced gap (t + gap) ts

-- Whatever the order and the clocks of the dispatchers' runs, the checks of one endpoint are at
-- least its interval apart, and the first is not before `next_check_at`.
pub claim_times-Spaced :
    (i : ℕ) (ds : List Dispatch) (db : Database) (e : Endpoint)
    → DistinctEndpoints db.endpoints
    → endpoint_by_id i db ≡ some e
    → Spaced (e.interval_seconds * second) e.next_check_at (claim_times i ds db)
unfolding claim_times claim
claim_times-Spaced i [] db e h found = tt
claim_times-Spaced i (d ∷ ds) db e h found =
    let h' = DistinctEndpoints-dispatch d db h in
    elim (dispatch-cases i d db e h found) [
      | inl (sent, moved, due) ↦
          rw (sent, claim_times)
            (due, claim_times-Spaced i ds (dispatch_due_checks d db).0 (claim d.now e) h' moved)
      | inr (not_sent, kept) ↦
          rw (not_sent, claim_times)
            (claim_times-Spaced i ds (dispatch_due_checks d db).0 e h' kept)
    ]
