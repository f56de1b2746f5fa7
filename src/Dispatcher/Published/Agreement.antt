-- ===== src/Dispatcher/Published/Agreement.antt =====
-- app/dispatcher.py with app/events.py: sequences of checks, with the messages about one endpoint.
use monitoring_service.Prelude.{
  ℕ, ◌≡◌, ◌≢◌, ◌≤◌, ◌<◌, ◌⊎◌, inl, inr, refl, ◌∙◌, sym, ap, true, ◌&&◌, some, List, [], ◌∷◌, ◌++◌,
  arith, ◌==◌, All, Bool-cases, if◌then◌else◌,
}
use monitoring_service.Prelude.Tables.{All-append, All-mono}
use monitoring_service.Model.{CheckResult}
use monitoring_service.Dispatcher.{StatusMessage, World, CheckRun, perform_check}
use monitoring_service.Dispatcher.Probe.{Measurement, is_up_for}
use monitoring_service.Dispatcher.Runs.{run_checks}
use monitoring_service.Dispatcher.Published.{
  last_published, up_of, last_stored, UpTo, InOrder, last_published-append, latest_result-append,
  latest_result-append_other, stored_result, published-perform_check,
}

-- The published status of an endpoint is the stored one.
abbrev pub Agrees : ℕ → World → Type 0
Agrees i w = last_published i w.published ≡ last_stored i w.db.results

-- One endpoint's published status, where it is the stored one, is so after a check of any endpoint.
module _ (i t : ℕ) (run : CheckRun) (w : World) where
  abbrev next_time : ℕ
  next_time = if run.endpoint_id == i && run.commits then run.checked_at else t

  same-Agrees :
      (x : World)
      → x.published ≡ w.published
      → x.db.results ≡ w.db.results
      → Agrees i w
      → Agrees i x
  same-Agrees x p r a = ap (last_published i) p ∙ a ∙ sym (ap (last_stored i) r)

  stored-Agrees :
      (x : World) (r : CheckResult)
      → x.db.results ≡ w.db.results ++ r ∷ []
      → r.endpoint_id ≡ i
      → r.checked_at ≡ run.checked_at
      → t < run.checked_at
      → UpTo i t w.db.results
      → last_published i x.published ≡ some (is_up_for r.status_code)
      → Agrees i x
  stored-Agrees x r stored own at later upto p =
      let before =
        All-mono (λ (y : CheckResult). y.endpoint_id ≡ i → y.checked_at ≤ t)
          (λ (y : CheckResult). y.endpoint_id ≡ i → y.checked_at < r.checked_at) w.db.results
          (λ y h e. rw at (omega (arith, h e, later))) upto in
      p
      ∙ sym
          (ap (last_stored i) stored ∙ ap up_of (latest_result-append i w.db.results r own before))

  -- What a check of the endpoint itself has told, or of another.
  abbrev Told : Measurement → Type 0
  Told m =
      ((last_stored run.endpoint_id w.db.results ≡ some (is_up_for m.status_code))
        × ((perform_check run w).0.published ≡ w.published))
      ⊎ ((message : StatusMessage) × ((perform_check run w).0.published
            ≡ w.published ++ message ∷ [])
          × (message.endpoint_id ≡ run.endpoint_id)
          × (message.is_up ≡ is_up_for m.status_code))

  abbrev Stored : Measurement → Type 0
  Stored m = (perform_check run w).0.db.results ≡ w.db.results ++ stored_result run m w.db ∷ []

  own_check-Agrees :
      (m : Measurement)
      → Stored m
      → Told m
      → run.endpoint_id ≡ i
      → t < run.checked_at
      → UpTo i t w.db.results
      → Agrees i w
      → Agrees i (perform_check run w).0
  own_check-Agrees m stored told own later upto a =
      stored-Agrees (perform_check run w).0 (stored_result run m w.db) stored own refl later upto
        (elim told [
          | inl (same, kept) ↦
              ap (last_published i) kept ∙ a ∙ ap (λ k. last_stored k w.db.results) (sym own) ∙ same
          | inr (message, added, about, up) ↦
              ap (last_published i) added
              ∙ last_published-append i w.published message
              ∙ ground arith
        ])

  other_check-Agrees :
      (m : Measurement)
      → Stored m
      → Told m
      → run.endpoint_id ≢ i
      → Agrees i w
      → Agrees i (perform_check run w).0
  other_check-Agrees m stored told other a =
      elim told [
        | inl (_, kept) ↦ ap (last_published i) kept
        | inr (message, added, about, _) ↦
            ap (last_published i) added ∙ last_published-append i w.published message ∙ ground arith
      ]
      ∙ a
      ∙ sym (
          ap (last_stored i) stored
          ∙ ap up_of (latest_result-append_other i w.db.results (stored_result run m w.db) other))

  perform_check-Agrees :
      run.publishes ≡ true
      → (run.endpoint_id ≡ i → t < run.checked_at)
      → UpTo i t w.db.results
      → Agrees i w
      → Agrees i (perform_check run w).0
  perform_check-Agrees p later upto a = elim (published-perform_check run w p) [
    | inl (told, stored) ↦ same-Agrees (perform_check run w).0 told stored a
    | inr (m, _, stored, told) ↦ elim (Bool-cases (run.endpoint_id == i)) [
      | inl own ↦
          let own_id : run.endpoint_id ≡ i = ground arith in
          own_check-Agrees m stored told own_id (later own_id) upto a
      | inr other ↦ other_check-Agrees m stored told (ground arith) a
    ]
  ]

  perform_check-UpTo :
      run.publishes ≡ true
      → (run.endpoint_id ≡ i → t < run.checked_at)
      → UpTo i t w.db.results
      → UpTo i next_time (perform_check run w).0.db.results
  perform_check-UpTo p later upto =
      let kept =
        All-mono (λ (r : CheckResult). r.endpoint_id ≡ i → r.checked_at ≤ t)
          (λ (r : CheckResult). r.endpoint_id ≡ i → r.checked_at ≤ next_time) w.db.results
          (λ r h e. ground (arith, h e, later)) upto in
      elim (published-perform_check run w p) [
        | inl (_, stored) ↦ rw stored kept
        | inr (m, committed, stored, _) ↦
            rw stored (All-append _ w.db.results _ kept ((λ e. ground arith), tt))
      ]

-- Where the checks of an endpoint run in the order of their times and Redis takes each message,
-- checks of any endpoints, whether or not they commit, keep the last published status of the
-- endpoint equal to the one of its latest stored result.
pub run_checks-Agrees :
    (i t : ℕ) (runs : List CheckRun) (w : World)
    → All (λ (run : CheckRun). run.publishes ≡ true) runs
    → InOrder i t runs
    → UpTo i t w.db.results
    → last_published i w.published ≡ last_stored i w.db.results
    → last_published i (run_checks runs w).published ≡ last_stored i (run_checks runs w).db.results
unfolding run_checks
run_checks-Agrees i t [] w p o upto a = a
run_checks-Agrees i t (run ∷ runs) w p o upto a =
    run_checks-Agrees i (next_time i t run w) runs (perform_check run w).0 p.1 o.1
      (perform_check-UpTo i t run w p.0 o.0 upto) (perform_check-Agrees i t run w p.0 o.0 upto a)
