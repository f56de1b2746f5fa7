-- ===== src/Dispatcher/Claim.antt =====
-- app/dispatcher.py, `dispatch_due_checks`: the UPDATE that claims the endpoints that are due.
-- Row locks make concurrent UPDATEs of one row happen one after the other, so concurrent
-- dispatchers are a sequence of claims.
pub mod Spacing
pub mod Promptness
use monitoring_service.Prelude.{
  ℕ, ◌+◌, ◌*◌, Bool, true, false, ◌&&◌, List, [], ◌∷◌, map, leb, if◌then◌else◌,
}
use monitoring_service.Prelude.Text.{Text}
use monitoring_service.Prelude.Tables.{select, update_where}
use monitoring_service.Model.{Endpoint, Database, second}

-- WHERE is_active AND next_check_at <= now()
unfoldable pub is_due : ℕ → Endpoint → Bool
is_due now e = e.is_active && leb e.next_check_at now

-- SET next_check_at = now() + (interval_seconds * INTERVAL '1 second')
unfoldable pub claim : ℕ → Endpoint → Endpoint
claim now e = record e { next_check_at = now + e.interval_seconds * second }

-- The arguments of `perform_check.apply_async`.
pub record PendingCheck : Type 0 where
  pub endpoint_id : ℕ
  pub url : Text
  pub checked_at : ℕ

-- One run of the task: `probe_time` is read before the transaction, `now` is the transaction's
-- clock, and `commits` is false if the database raises; then no task is sent.
pub record Dispatch : Type 0 where
  pub probe_time : ℕ
  pub now : ℕ
  pub commits : Bool

abbrev pub pending_check : ℕ → Endpoint → PendingCheck
pending_check probe_time e = record { endpoint_id = e.id; url = e.url; checked_at = probe_time }

unfoldable pub dispatch_due_checks : Dispatch → Database → Database × List PendingCheck
dispatch_due_checks d db =
    if d.commits
    then (
      record db { endpoints = update_where (is_due d.now) (claim d.now) db.endpoints },
      map (pending_check d.probe_time) (select (is_due d.now) db.endpoints),
    )
    else (db, [])
