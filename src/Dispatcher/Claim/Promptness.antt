-- ===== src/Dispatcher/Claim/Promptness.antt =====
-- app/dispatcher.py, `dispatch_due_checks`: how late the tasks are when the runs keep to a schedule.
use monitoring_service.Prelude.{
  ℕ, ◌+◌, ◌*◌, ◌≤◌, ◌≡◌, ◌∙◌, inl, inr, true, some, List, [], ◌∷◌, arith, Bool-cases,
}
use monitoring_service.Model.{Endpoint, Database, second, endpoint_by_id}
use monitoring_service.Dispatcher.Claim.{is_due, claim, Dispatch, dispatch_due_checks}
use monitoring_service.Dispatcher.Claim.Spacing.{
  DistinctEndpoints, DistinctEndpoints-dispatch, endpoint-dispatch, sent-dispatch, sent_for,
  claim_times,
}

-- The runs commit, and each comes at most a tick after the one before it, the first after `last`.
abbrev pub Every : ℕ → ℕ → List Dispatch → Type 0
Every tick last [] = Unit
Every tick last (d ∷ ds) =
    ((d.commits ≡ true) × (last ≤ d.now) × (d.now ≤ last + tick)) × Every tick d.now ds

abbrev pub last_clock : ℕ → List Dispatch → ℕ
last_clock last [] = last
last_clock last (d ∷ ds) = last_clock d.now ds

-- Each time is at most a tick after its due time, which for a later one is `gap` after the time
-- before it; and `last` is not past the next due time.
abbrev pub Prompt : ℕ → ℕ → ℕ → ℕ → List ℕ → Type 0
Prompt gap tick due last [] = last ≤ due
Prompt gap tick due last (t ∷ ts) = (t ≤ due + tick) × Prompt gap tick (t + gap) last ts

-- Where the runs commit and are at most a tick apart, the tasks of an active endpoint, which nothing
-- else changes in between, are each sent at most a tick after they are due, and none is missing at
-- the last run, where endpoint keys are unique.
pub claim_times-Prompt :
    (i tick last : ℕ) (ds : List Dispatch) (db : Database) (e : Endpoint)
    → DistinctEndpoints db.endpoints
    → endpoint_by_id i db ≡ some e
    → e.is_active ≡ true
    → last ≤ e.next_check_at
    → Every tick last ds
    → Prompt
        (e.interval_seconds * second)
        tick
        e.next_check_at
        (last_clock last ds)
        (claim_times i ds db)
unfolding claim_times claim is_due
claim_times-Prompt i tick last [] db e h found active before every = before
claim_times-Prompt i tick last (d ∷ ds) db e h found active before every =
    let h' = DistinctEndpoints-dispatch d db h in
    let ((commits, from, within), rest) = every in
    elim (Bool-cases (is_due d.now e)) [
      | inl due ↦
          let sent : sent_for i (dispatch_due_checks d db).1 ≡ 1 =
            sent-dispatch i d db h ∙ rw found (ground arith) in
          let moved : endpoint_by_id i (dispatch_due_checks d db).0 ≡ some (claim d.now e) =
            endpoint-dispatch i d db ∙ rw found (ground arith) in
          rw (sent, claim_times)
            (
              omega (arith, within, before),
              claim_times-Prompt i tick d.now ds (dispatch_due_checks d db).0 (claim d.now e) h'
                  moved active (omega arith) rest,
            )
      | inr waits ↦
          let not_sent : sent_for i (dispatch_due_checks d db).1 ≡ 0 =
            sent-dispatch i d db h ∙ rw found (ground arith) in
          let kept : endpoint_by_id i (dispatch_due_checks d db).0 ≡ some e =
            endpoint-dispatch i d db ∙ rw found (ground arith) in
          rw (not_sent, claim_times)
            (claim_times-Prompt i tick d.now ds (dispatch_due_checks d db).0 e h' kept active
              (ground arith) rest)
    ]
