-- ===== src/Dispatcher/Purge/Outcome.antt =====
-- app/dispatcher.py, `purge_old_results`: its end, and the rows that it leaves.
use mathlib.Core.Option
use monitoring_service.Prelude.{
  ℕ, zero, suc, ◌+◌, ◌-◌, ◌≤◌, ◌<◌, ◌≡◌, inl, inr, refl, sym, ap, ◌∙◌, Bool, true, false, not, some,
  List, [], ◌∷◌, arith, ◌==◌, length, All, Bool-cases,
}
use monitoring_service.Prelude.Tables.{select, delete_where, All-mono}
use monitoring_service.Model.{CheckResult}
use monitoring_service.Dispatcher.Purge.{
  is_old, delete_batch, purge_loop, Retention, purge_old_results,
}

module _ (old : CheckResult → Bool) where
  length-delete_batch-le :
      (n : ℕ) (rows : List CheckResult) → length (delete_batch old n rows) ≤ length rows
  unfolding delete_batch
  length-delete_batch-le n [] = omega arith
  length-delete_batch-le zero (r ∷ rs) = omega arith
  length-delete_batch-le (suc n) (r ∷ rs) =
      ground (arith, length-delete_batch-le n rs, length-delete_batch-le (suc n) rs)

  -- A batch of at least one row that deletes nothing has found no old row.
  none_old :
      (n : ℕ) (rows : List CheckResult)
      → length rows ≤ length (delete_batch old (suc n) rows)
      → All (λ r. old r ≡ false) (delete_batch old (suc n) rows)
  unfolding delete_batch
  none_old n [] h = tt
  none_old n (r ∷ rs) h = ground (arith, none_old n rs, length-delete_batch-le n rs)

  -- A batch deletes none of the rows that pass a test which no old row passes.
  select-delete_batch :
      (keep : CheckResult → Bool) (n : ℕ) (rows : List CheckResult)
      → ((r : CheckResult) → old r ≡ true → keep r ≡ false)
      → select keep (delete_batch old n rows) ≡ select keep rows
  unfolding delete_batch
  select-delete_batch keep n [] h = refl
  select-delete_batch keep zero (r ∷ rs) h = refl
  select-delete_batch keep (suc n) (r ∷ rs) h =
      ground (arith, h r, select-delete_batch keep n rs h, select-delete_batch keep (suc n) rs h)

-- A row that is old stays old.
is_old_mono :
    (days : ℕ) {now later : ℕ} (r : CheckResult)
    → now ≤ later
    → is_old days now r ≡ true
    → is_old days later r ≡ true
unfolding is_old
is_old_mono days r le h = ground arith

not_old-earlier :
    (days : ℕ) {now later : ℕ} (r : CheckResult)
    → now ≤ later
    → is_old days later r ≡ false
    → is_old days now r ≡ false
unfolding is_old
not_old-earlier days r le h = ground arith

module _ (now : ℕ → ℕ) (days batch : ℕ) where
  -- more fuel than rows is enough
  purge_loop-some :
      (fuel pass : ℕ) (rows : List CheckResult) (deleted : ℕ)
      → length rows < fuel
      → (end : List CheckResult × ℕ) × (purge_loop fuel now pass days batch rows deleted ≡ some end)
  unfolding purge_loop
  purge_loop-some zero pass rows deleted h = absurd (omega arith)
  purge_loop-some (suc fuel) pass rows deleted h =
      let left = delete_batch (is_old days (now pass)) batch rows in
      elim (Bool-cases (length rows - length left == 0)) [
        | inl stop ↦ ((left, deleted), rw stop)
        | inr go ↦ rw go (
            purge_loop-some fuel (suc pass) left _
              (ground (arith, length-delete_batch-le (is_old days (now pass)) batch rows)))
      ]

  purge_loop-counts :
      (fuel pass : ℕ) (rows : List CheckResult) (deleted : ℕ) (left : List CheckResult) (total : ℕ)
      → purge_loop fuel now pass days batch rows deleted ≡ some (left, total)
      → total + length left ≡ deleted + length rows
  unfolding purge_loop
  purge_loop-counts zero pass rows deleted left total h = cc
  purge_loop-counts (suc fuel) pass rows deleted left total h =
      let kept = delete_batch (is_old days (now pass)) batch rows in
      ground (
        arith,
        length-delete_batch-le (is_old days (now pass)) batch rows,
        purge_loop-counts fuel (suc pass) kept (deleted + (length rows - length kept)) left total,
      )

  purge_loop-keeps :
      (bound : ℕ)
      → ((k : ℕ) → now k ≤ bound)
      → (fuel pass : ℕ) (rows : List CheckResult) (deleted : ℕ) (left : List CheckResult)
        (total : ℕ)
      → purge_loop fuel now pass days batch rows deleted ≡ some (left, total)
      → delete_where (is_old days bound) left ≡ delete_where (is_old days bound) rows
  unfolding purge_loop
  purge_loop-keeps bound b zero pass rows deleted left total h = cc
  purge_loop-keeps bound b (suc fuel) pass rows deleted left total h =
      let kept = delete_batch (is_old days (now pass)) batch rows in
      let same =
        select-delete_batch (is_old days (now pass)) (λ r. not (is_old days bound r)) batch rows
          (λ r old. ap not (is_old_mono days r (b pass) old)) in
      ground (
        arith,
        same,
        purge_loop-keeps bound b fuel (suc pass) kept (deleted + (length rows - length kept)) left
            total,
      )

module _ (now : ℕ → ℕ) (days n : ℕ) (starts : (k : ℕ) → now 0 ≤ now k) where
  -- what the last, empty pass has left was not old when the purge began
  purge_loop-young :
      (fuel pass : ℕ) (rows : List CheckResult) (deleted : ℕ) (left : List CheckResult) (total : ℕ)
      → purge_loop fuel now pass days (suc n) rows deleted ≡ some (left, total)
      → All (λ r. is_old days (now 0) r ≡ false) left
  unfolding purge_loop
  purge_loop-young zero pass rows deleted left total h = cc
  purge_loop-young (suc fuel) pass rows deleted left total h =
      let kept = delete_batch (is_old days (now pass)) (suc n) rows in
      elim (Bool-cases (length rows - length kept == 0)) [
        | inl stop ↦
            let e : kept ≡ left = ground arith in
            let now_young = none_old (is_old days (now pass)) n rows (ground arith) in
            rw (← e)
              (All-mono _ _ kept (λ r young. not_old-earlier days r (starts pass) young) now_young)
        | inr go ↦
            purge_loop-young fuel (suc pass) kept (deleted + (length rows - length kept)) left total
              (rw (go, purge_loop) at h)
      ]

delete_where-young :
    (old : CheckResult → Bool) (rows : List CheckResult)
    → All (λ r. old r ≡ false) rows
    → delete_where old rows ≡ rows
delete_where-young old [] h = refl
delete_where-young old (r ∷ rs) h = ground (arith, delete_where-young old rs h.1)

-- With a positive batch size and more fuel than rows, while the clock runs from `now 0` and not
-- past `bound`: the purge ends; the count that it returns is of the rows that are gone; no row is
-- left that was old at the start; and the rows that are not old at `bound` are all left, in order.
pub purge_outcome :
    (config : Retention) (fuel batch_size bound : ℕ) (now : ℕ → ℕ) (rows : List CheckResult)
    → 0 < config.purge_batch_size
    → length rows < fuel
    → ((k : ℕ) → now 0 ≤ now k)
    → ((k : ℕ) → now k ≤ bound)
    → (left : List CheckResult) × (deleted : ℕ) × (purge_old_results config fuel now batch_size rows
        ≡ some (left, deleted))
      × (deleted + length left ≡ length rows)
      × All (λ r. is_old config.retention_days (now 0) r ≡ false) left
      × (delete_where (is_old config.retention_days bound) left
          ≡ delete_where (is_old config.retention_days bound) rows)
unfolding purge_old_results
purge_outcome config fuel batch_size bound now rows pos enough starts bounded =
    let days = config.retention_days in
    let n = config.purge_batch_size - 1 in
    let size : config.purge_batch_size ≡ suc n = omega arith in
    let ((left, deleted), ends) =
      purge_loop-some now days config.purge_batch_size fuel 0 rows 0 enough in
    (
      left,
      deleted,
      ends,
      ground (arith, purge_loop-counts now days config.purge_batch_size fuel 0 rows 0 left deleted),
      purge_loop-young now days n starts fuel 0 rows 0 left deleted (rw (← size) ends),
      purge_loop-keeps now days config.purge_batch_size bound bounded fuel 0 rows 0 left deleted
          ends,
    )

-- While the clock stands still, the purge leaves exactly the rows that are not old.
pub purge_exact :
    (config : Retention) (fuel batch_size now : ℕ) (rows : List CheckResult)
    → 0 < config.purge_batch_size
    → length rows < fuel
    → Option.map
        (λ (r : List CheckResult × ℕ). r.0)
        (purge_old_results config fuel (λ _. now) batch_size rows)
      ≡ some (delete_where (is_old config.retention_days now) rows)
purge_exact config fuel batch_size now rows pos enough =
    let (left, deleted, ends, counts, young, kept) =
      purge_outcome config fuel batch_size now (λ _. now) rows pos enough (λ k. omega arith)
        (λ k. omega arith) in
    rw ends (ap some (sym (delete_where-young _ left young) ∙ kept))
