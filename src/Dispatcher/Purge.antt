-- ===== src/Dispatcher/Purge.antt =====
-- app/dispatcher.py, `purge_old_results`: batches of deletes until one deletes nothing.
pub mod Outcome
use monitoring_service.Prelude.{
  ℕ, zero, suc, ◌+◌, ◌*◌, ◌-◌, Bool, Option, none, some, List, [], ◌∷◌, ◌==◌, ltb, length,
  if◌then◌else◌,
}
use monitoring_service.Model.{CheckResult, Database, second}

-- checked_at < now() - (:days * INTERVAL '1 day'), for times counted from a far past.
unfoldable pub is_old : ℕ → ℕ → CheckResult → Bool
is_old days now r = ltb (r.checked_at + days * (86_400 * second)) now

-- DELETE … WHERE id IN (SELECT id … LIMIT :batch): the scan takes the first rows that are old.
unfoldable pub delete_batch : (CheckResult → Bool) → ℕ → List CheckResult → List CheckResult
delete_batch old batch [] = []
delete_batch old zero (r ∷ rs) = r ∷ rs
delete_batch old (suc n) (r ∷ rs) =
    if old r then delete_batch old n rs else r ∷ delete_batch old (suc n) rs

-- The `while True` loop on fuel; `none` is running out of it. `now k` is the clock of the k-th
-- pass's statement, and the rowcount is what the table has lost.
unfoldable pub purge_loop :
    ℕ → (ℕ → ℕ) → ℕ → ℕ → ℕ → List CheckResult → ℕ → Option (List CheckResult × ℕ)
purge_loop zero now pass days batch rows deleted = none
purge_loop (suc fuel) now pass days batch rows deleted =
    let left = delete_batch (is_old days (now pass)) batch rows in
    let rowcount = length rows - length left in
    let rest = purge_loop fuel now (suc pass) days batch left (deleted + rowcount) in
    if rowcount == 0 then some (left, deleted) else rest

-- RETENTION_DAYS and PURGE_BATCH_SIZE of app/config.py.
pub record Retention : Type 0 where
  pub retention_days : ℕ
  pub purge_batch_size : ℕ

-- The parameter `batch_size` is not read: the statement is given PURGE_BATCH_SIZE.
unfoldable pub purge_old_results :
    Retention → ℕ → (ℕ → ℕ) → ℕ → List CheckResult → Option (List CheckResult × ℕ)
purge_old_results config fuel now batch_size rows =
    purge_loop fuel now 0 config.retention_days config.purge_batch_size rows 0
