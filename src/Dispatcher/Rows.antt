-- ===== src/Dispatcher/Rows.antt =====
-- The whole `for row in alert_rows` loop: each configuration among the rows reacts once.
use mathlib.Core.List.{append-nil}
use monitoring_service.Prelude.{
  ℕ, ◌≡◌, ◌≢◌, refl, ap, ◌∙◌, Bool, true, false, Option, none, some, List, [], ◌∷◌, ◌++◌, arith,
  ◌==◌, ==_refl, ==_iff, All, Bool-cases, inl, inr,
}
use monitoring_service.Prelude.Tables.{select, first_where, All-select}
use monitoring_service.Model.{AlertConfig}
use monitoring_service.Dispatcher.{World, CheckRun, handle_row, handle_rows}
use monitoring_service.Dispatcher.Alerting.{AlertTask}
use monitoring_service.Dispatcher.Progress.{
  progress, advance, queued_for, tasks_of, reaction, progress-handle_row_self,
  progress-handle_row_ne, queued_for-handle_row,
}

abbrev pub config_by_id : ℕ → List AlertConfig → Option AlertConfig
config_by_id c = first_where (λ (r : AlertConfig). r.id == c)

-- No two rows have one key.
abbrev pub DistinctIds : List AlertConfig → Type 0
DistinctIds [] = Unit
DistinctIds (r ∷ rs) = All (λ x. x.id ≢ r.id) rs × DistinctIds rs

pub DistinctIds-select :
    (test : AlertConfig → Bool) (rows : List AlertConfig)
    → DistinctIds rows
    → DistinctIds (select test rows)
DistinctIds-select test [] h = tt
DistinctIds-select test (r ∷ rs) h = ground (
  arith,
  DistinctIds-select test rs h.1,
  All-select (λ (x : AlertConfig). x.id ≢ r.id) test rs h.0,
)

-- A key that no row has is not found.
config_by_id-absent :
    (c : ℕ) (rows : List AlertConfig) → All (λ x. x.id ≢ c) rows → config_by_id c rows ≡ none
config_by_id-absent c [] h = refl
config_by_id-absent c (r ∷ rs) h = ground (arith, config_by_id-absent c rs h.1)

-- The row with a key is among the selected ones if it passes their test.
pub config_by_id-select :
    (c : ℕ) (test : AlertConfig → Bool) (rows : List AlertConfig) (row : AlertConfig)
    → config_by_id c rows ≡ some row
    → test row ≡ true
    → config_by_id c (select test rows) ≡ some row
config_by_id-select c test [] row h t = cc
config_by_id-select c test (r ∷ rs) row h t = ground (arith, config_by_id-select c test rs row)

-- The row with a key is not among the selected ones if it fails their test.
pub config_by_id-select_reject :
    (c : ℕ) (test : AlertConfig → Bool) (rows : List AlertConfig) (row : AlertConfig)
    → DistinctIds rows
    → config_by_id c rows ≡ some row
    → test row ≡ false
    → config_by_id c (select test rows) ≡ none
config_by_id-select_reject c test [] row d h t = refl
config_by_id-select_reject c test (r ∷ rs) row d h t = elim (Bool-cases (r.id == c)) [
  | inl same ↦
      let e = (==_iff r.id c).0 same in
      let others = All-select (λ (x : AlertConfig). x.id ≢ c) test rs (rw (← e) d.0) in
      ground (arith, config_by_id-absent c (select test rs) others)
  | inr other ↦ ground (arith, config_by_id-select_reject c test rs row d.1)
]

-- What the loop leaves for one configuration: the reaction of its row if it is among the rows.
abbrev pub after_rows : Bool → Option AlertConfig → ℕ × Bool → ℕ × Bool
after_rows up none p = p
after_rows up (some row) p = (advance up row.threshold p).0

abbrev pub tasks_for : Bool → CheckRun → Option AlertConfig → ℕ × Bool → List AlertTask
tasks_for up run none p = []
tasks_for up run (some row) p = tasks_of (advance up row.threshold p).1 run row

module _ (up : Bool) (run : CheckRun) (c : ℕ) where
  pub progress-handle_rows_absent :
      (rows : List AlertConfig) (w : World)
      → All (λ x. x.id ≢ c) rows
      → progress c (handle_rows up run rows w).db ≡ progress c w.db
  unfolding handle_rows
  progress-handle_rows_absent [] w h = refl
  progress-handle_rows_absent (r ∷ rs) w h =
      progress-handle_rows_absent rs (handle_row up run r w) h.1
      ∙ progress-handle_row_ne up run r w c h.0

  queued_for-handle_rows_absent :
      (rows : List AlertConfig) (w : World)
      → All (λ x. x.id ≢ c) rows
      → queued_for c (handle_rows up run rows w) ≡ queued_for c w
  unfolding handle_rows
  queued_for-handle_rows_absent [] w h = refl
  queued_for-handle_rows_absent (r ∷ rs) w h =
      queued_for-handle_rows_absent rs (handle_row up run r w) h.1
      ∙ ground (arith, queued_for-handle_row up run r w c, append-nil (queued_for c w))

-- The row at the head of the loop reacts, and no later row touches its configuration.
module _ (up : Bool) (run : CheckRun) (r : AlertConfig) (rs : List AlertConfig) (w : World) where
  progress-head :
      All (λ x. x.id ≢ r.id) rs
      → progress r.id (handle_rows up run rs (handle_row up run r w)).db
        ≡ (advance up r.threshold (progress r.id w.db)).0
  progress-head h =
      progress-handle_rows_absent up run r.id rs (handle_row up run r w) h
      ∙ progress-handle_row_self up run r w

  queued_for-head :
      All (λ x. x.id ≢ r.id) rs
      → queued_for r.id (handle_rows up run rs (handle_row up run r w))
        ≡ queued_for r.id w ++ tasks_of (reaction up run r w).1 run r
  queued_for-head h =
      queued_for-handle_rows_absent up run r.id rs (handle_row up run r w) h
      ∙ queued_for-handle_row up run r w r.id
      ∙ rw ==_refl

module _ (up : Bool) (run : CheckRun) (c : ℕ) where
  pub progress-handle_rows :
      (rows : List AlertConfig) (w : World)
      → DistinctIds rows
      → progress c (handle_rows up run rows w).db
        ≡ after_rows up (config_by_id c rows) (progress c w.db)
  unfolding handle_rows
  progress-handle_rows [] w h = refl
  progress-handle_rows (r ∷ rs) w h = elim (Bool-cases (r.id == c)) [
    | inl same ↦ ground (arith, progress-head up run r rs w h.0)
    | inr other ↦ rw other (
        progress-handle_rows rs (handle_row up run r w) h.1
        ∙ ap (after_rows up (config_by_id c rs))
            (progress-handle_row_ne up run r w c (ground arith)))
  ]

  pub queued_for-handle_rows :
      (rows : List AlertConfig) (w : World)
      → DistinctIds rows
      → queued_for c (handle_rows up run rows w)
        ≡ queued_for c w ++ tasks_for up run (config_by_id c rows) (progress c w.db)
  unfolding handle_rows
  queued_for-handle_rows [] w h = rw append-nil
  queued_for-handle_rows (r ∷ rs) w h = elim (Bool-cases (r.id == c)) [
    | inl same ↦ ground (arith, queued_for-head up run r rs w h.0)
    | inr other ↦ rw other (
        queued_for-handle_rows rs (handle_row up run r w) h.1
        ∙ ground (
          arith,
          queued_for-handle_row up run r w c,
          progress-handle_row_ne up run r w c,
          append-nil (queued_for c w),
        ))
  ]
