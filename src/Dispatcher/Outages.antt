-- ===== src/Dispatcher/Outages.antt =====
-- app/dispatcher.py, `perform_check`: the messages of one configuration over a sequence of checks.
use mathlib.Core.List.{map-append, append-nil, append_assoc}
use monitoring_service.Prelude.{
  ℕ, ◌≡◌, refl, sym, ◌∙◌, ap, ◌++◌, Bool, true, false, Option, none, some, List, [], ◌∷◌, map,
  arith, All,
}
use monitoring_service.Model.{Endpoint, AlertConfig}
use monitoring_service.Dispatcher.{World, CheckRun, perform_check}
use monitoring_service.Dispatcher.Alerting.{AlertTask}
use monitoring_service.Dispatcher.Progress.{progress, queued_for, tasks_of}
use monitoring_service.Dispatcher.Frame.{db-perform_check_uncommitted}
use monitoring_service.Dispatcher.History.{
  alerting_failure_pos, outage_alerted, trailing_failures, expected, message_after, messages,
  to_list, advance-expected, Alternating, messages-Alternating,
}
use monitoring_service.Dispatcher.Runs.{
  run_checks, attempted, measured, measured-done, extend, history, react, IsWatched,
  IsWatched-perform_check, progress-perform_check, queued_for-perform_check,
}

-- The kinds of the messages queued for one configuration, the oldest first; true is a recovery.
abbrev pub kinds_for : ℕ → World → List Bool
kinds_for c w = map (λ (t : AlertTask). t.is_recovery) (queued_for c w)

pub kinds-tasks_of :
    (alert : Option Bool) (run : CheckRun) (row : AlertConfig)
    → map (λ (t : AlertTask). t.is_recovery) (tasks_of alert run row) ≡ to_list alert
kinds-tasks_of none run row = refl
kinds-tasks_of (some k) run row = refl

module _ (row : AlertConfig) (owner : Endpoint) where
  expected_fresh : expected row.threshold [] ≡ (0, false)
  unfolding outage_alerted trailing_failures
  expected_fresh = ground (arith, alerting_failure_pos row.threshold)

  messages_fresh : messages row.threshold [] ≡ []
  unfolding messages
  messages_fresh = refl

  react-expected :
      (o : Option Bool) (h : List Bool)
      → ((react row owner o (expected row.threshold h)).0 ≡ expected row.threshold (extend o h))
        × (messages row.threshold h ++ to_list (react row owner o (expected row.threshold h)).1
            ≡ messages row.threshold (extend o h))
  unfolding messages
  react-expected none h = (refl, append-nil (messages row.threshold h))
  react-expected (some up) h = rw (advance-expected row.threshold h up) (refl, refl)

  step-expected :
      (run : CheckRun) (w : World) (h : List Bool)
      → IsWatched row owner w.db
      → progress row.id w.db ≡ expected row.threshold h
      → progress row.id (perform_check run w).0.db
        ≡ expected row.threshold (extend (measured row.endpoint_id run) h)
  step-expected run w h watched e =
      progress-perform_check row owner run w watched
      ∙ rw e (react-expected (measured row.endpoint_id run) h).0

  kinds-perform_check :
      (run : CheckRun) (w : World) (h : List Bool)
      → IsWatched row owner w.db
      → progress row.id w.db ≡ expected row.threshold h
      → kinds_for row.id (perform_check run w).0
        ≡ kinds_for row.id w
          ++ to_list (react row owner (attempted row.endpoint_id run) (expected row.threshold h)).1
  kinds-perform_check run w h watched e =
      ap (map (λ (t : AlertTask). t.is_recovery)) (queued_for-perform_check row owner run w watched)
      ∙ map-append (λ (t : AlertTask). t.is_recovery) (queued_for row.id w) _
      ∙ rw (kinds-tasks_of, e) refl

  step-messages :
      (run : CheckRun) (w : World) (h : List Bool)
      → IsWatched row owner w.db
      → run.commits ≡ true
      → progress row.id w.db ≡ expected row.threshold h
      → kinds_for row.id w ≡ messages row.threshold h
      → kinds_for row.id (perform_check run w).0
        ≡ messages row.threshold (extend (measured row.endpoint_id run) h)
  step-messages run w h watched c e q =
      kinds-perform_check run w h watched e
      ∙ rw (q, measured-done row owner run c) (react-expected (attempted row.endpoint_id run) h).1

  -- After any runs, of this endpoint or of others, committed or not, the stored streak is the
  -- number of checks in a row that failed, and the stored flag says whether they reach the threshold.
  pub progress-run_checks :
      (runs : List CheckRun) (w : World) (h : List Bool)
      → IsWatched row owner w.db
      → progress row.id w.db ≡ expected row.threshold h
      → progress row.id (run_checks runs w).db
        ≡ expected row.threshold (history row.endpoint_id runs h)
  unfolding run_checks history
  progress-run_checks [] w h watched e = e
  progress-run_checks (run ∷ runs) w h watched e =
      progress-run_checks runs (perform_check run w).0 (extend (measured row.endpoint_id run) h)
        (IsWatched-perform_check row owner run w watched) (step-expected run w h watched e)

  -- After any runs whose commits succeed, the messages queued for the configuration are those that
  -- the history of its endpoint calls for, in order.
  pub queued-run_checks :
      (runs : List CheckRun) (w : World) (h : List Bool)
      → All (λ (r : CheckRun). r.commits ≡ true) runs
      → IsWatched row owner w.db
      → progress row.id w.db ≡ expected row.threshold h
      → kinds_for row.id w ≡ messages row.threshold h
      → kinds_for row.id (run_checks runs w)
        ≡ messages row.threshold (history row.endpoint_id runs h)
  unfolding run_checks history
  queued-run_checks [] w h c watched e q = q
  queued-run_checks (run ∷ runs) w h c watched e q =
      queued-run_checks runs (perform_check run w).0 (extend (measured row.endpoint_id run) h) c.1
        (IsWatched-perform_check row owner run w watched) (step-expected run w h watched e)
        (step-messages run w h watched c.0 e q)

  -- From a fresh configuration, whatever runs follow, as long as their commits succeed, the
  -- messages queued for it are a down alert, a recovery, a down alert and so on in turn: an outage
  -- is alerted once, and nothing recovers that was not alerted.
  pub alerts-Alternating :
      (runs : List CheckRun) (w : World)
      → All (λ (r : CheckRun). r.commits ≡ true) runs
      → IsWatched row owner w.db
      → progress row.id w.db ≡ (0, false)
      → kinds_for row.id w ≡ []
      → Alternating false (kinds_for row.id (run_checks runs w))
  alerts-Alternating runs w c watched e q =
      rw (queued-run_checks runs w [] c watched (e ∙ sym expected_fresh) (q ∙ sym messages_fresh))
        (messages-Alternating row.threshold (history row.endpoint_id runs [])).0

  -- When the commit of a check that sends a message fails, and Celery runs the check again with
  -- the same outcome, the same message is sent twice.
  pub retry-duplicates :
      (run : CheckRun) (w : World) (h : List Bool) (up k : Bool)
      → run.commits ≡ false
      → IsWatched row owner w.db
      → progress row.id w.db ≡ expected row.threshold h
      → attempted row.endpoint_id run ≡ some up
      → message_after row.threshold h up ≡ some k
      → kinds_for row.id (perform_check (record run { commits = true }) (perform_check run w).0).0
        ≡ kinds_for row.id w ++ k ∷ k ∷ []
  unfolding attempted
  retry-duplicates run w h up k c watched e found sends =
      let again = record run { commits = true } in
      let same = db-perform_check_uncommitted run w c in
      let r = advance-expected row.threshold h up in
      kinds-perform_check again (perform_check run w).0 h (rw same watched) (rw same e)
      ∙ ground (
        arith,
        kinds-perform_check run w h watched e,
        ap (λ (p : (ℕ × Bool) × Option Bool). p.1) r,
        append_assoc (kinds_for row.id w) (k ∷ []) (k ∷ []),
      )
