-- ===== src/Dispatcher/Alerting.antt =====
-- app/dispatcher.py: one alert configuration's reaction to a check, and what it queues.
use monitoring_service.Prelude.{
  ℕ, ◌+◌, Bool, true, false, not, ◌&&◌, Option, none, some, [], ◌∷◌, ◌++◌, ◌==◌, if◌then◌else◌,
}
use monitoring_service.Prelude.Text.{Text, text}
use monitoring_service.Prelude.Tables.{update_where}
use monitoring_service.Model.{AlertChannel, AlertConfig, AlertState, Database, state_of_config}
use monitoring_service.Model.Int.{leb_ℤ}

-- A message of `send_email_alert.delay` or `send_webhook_alert.delay`: the channel says which.
pub record AlertTask : Type 0 where
  pub channel : AlertChannel
  pub config_id : ℕ
  pub target : Text
  pub endpoint_id : ℕ
  pub url : Text
  pub timestamp : ℕ
  pub is_recovery : Bool

abbrev pub kind : Bool → Text
kind is_recovery = if is_recovery then text "recovery" else text "down"

-- The body of `for row in alert_rows` without its effects: the new state of the row, and the
-- argument `is_recovery` of the `queue_alert` call if there is one. `now` is the clock there.
unfoldable pub next_state : Bool → ℕ → AlertConfig → AlertState → AlertState × Option Bool
next_state true now row s = (
  record s { current_streak = 0; alert_sent = false },
  (if s.alert_sent then some true else none),
)
next_state false now row s =
    let streak = s.current_streak + 1 in
    if leb_ℤ row.threshold streak && not s.alert_sent
    then (
      record s { current_streak = streak; alert_sent = true; last_alert_at = some now },
      some false,
    )
    else (record s { current_streak = streak }, none)

-- `AlertState(config_id=row.id)`; the primary key is set when the row is inserted.
abbrev pub new_state : ℕ → ℕ → AlertState
new_state i c = record {
  id = i;
  config_id = c;
  current_streak = 0;
  alert_sent = false;
  last_alert_at = none;
}

-- The state row that the body works on.
unfoldable pub state_row : AlertConfig → Database → AlertState
state_row row db = elim (state_of_config row.id db.states) [
  | none ↦ new_state db.seq.state_seq row.id
  | some s ↦ s
]

-- `session.add(state_row)`: a stored row is updated, a new one is inserted.
unfoldable pub save_state : AlertConfig → AlertState → Database → Database
save_state row s db = elim (state_of_config row.id db.states) [
  | none ↦ record db {
    states = db.states ++ s ∷ [];
    seq = record db.seq { state_seq = db.seq.state_seq + 1 };
  }
  | some _ ↦ record db { states = update_where (λ t. t.config_id == row.id) (λ _. s) db.states }
]
