-- ===== src/Alerts/Undelivered.antt =====
-- app/alerts.py, `handle_alert_exhausted`: the alert states after an alert could not be delivered.
use monitoring_service.Prelude.{
  ℕ, ◌+◌, ◌≡◌, ◌≢◌, ◌∙◌, ap, refl, inl, inr, true, false, ◌&&◌, Option, some, List, [], ◌∷◌, arith,
  ◌==◌, Bool-cases, if◌then◌else◌,
}
use monitoring_service.Prelude.Text.{Text}
use monitoring_service.Prelude.Tables.{update_where}
use monitoring_service.Model.{AlertConfig, AlertState, Database, state_of_config}
use monitoring_service.Model.Int.{leb_ℤ}
use monitoring_service.Dispatcher.Alerting.{AlertTask, next_state, state_row}
use monitoring_service.Alerts.{Worker, mark_alert_undelivered, handle_alert_exhausted}

abbrev pub clear_sent : AlertState → AlertState
clear_sent s = record s { alert_sent = false }

abbrev pub cleared : ℕ → List AlertState → List AlertState
cleared c = update_where (λ (x : AlertState). x.config_id == c && x.alert_sent) clear_sent

pub state_of_config-cleared :
    (c : ℕ) (states : List AlertState) (s : AlertState)
    → state_of_config c states ≡ some s
    → state_of_config c (cleared c states) ≡ some (if s.alert_sent then clear_sent s else s)
state_of_config-cleared c [] s h = cc
state_of_config-cleared c (x ∷ states) s h = ground (arith, state_of_config-cleared c states s)

pub state_of_config-cleared_ne :
    (c d : ℕ) (states : List AlertState)
    → c ≢ d
    → state_of_config d (cleared c states) ≡ state_of_config d states
state_of_config-cleared_ne c d [] n = refl
state_of_config-cleared_ne c d (x ∷ states) n =
    ground (arith, state_of_config-cleared_ne c d states n)

found_row :
    (row : AlertConfig) (db : Database) (t : AlertState)
    → state_of_config row.id db.states ≡ some t
    → state_row row db ≡ t
unfolding state_row
found_row row db t e = rw (e, state_row) refl

unsent_alerts :
    (now : ℕ) (row : AlertConfig) (s : AlertState)
    → leb_ℤ row.threshold (s.current_streak + 1) ≡ true
    → (next_state false now row (if s.alert_sent then clear_sent s else s)).1 ≡ some false
unfolding next_state
unsent_alerts now row s h = elim (Bool-cases s.alert_sent) [
  | inl e ↦ rw (e, h) refl
  | inr e ↦ rw (e, h) refl
]

-- When a down alert has used up its attempts, the next check that fails at or above the threshold
-- queues a down alert again.
pub exhausted_alerts_again :
    (channel : Text) (task : AlertTask) (row : AlertConfig) (s : AlertState) (now : ℕ) (w : Worker)
    → task.config_id ≡ row.id
    → task.is_recovery ≡ false
    → state_of_config row.id w.db.states ≡ some s
    → leb_ℤ row.threshold (s.current_streak + 1) ≡ true
    → (next_state false now row
        (state_row row (handle_alert_exhausted (some channel) (some task) w).db)).1
      ≡ some false
unfolding handle_alert_exhausted mark_alert_undelivered
exhausted_alerts_again channel task row s now w c r e h =
    rw (r, c)
      (ap (λ (t : AlertState). (next_state false now row t).1)
          (found_row row (mark_alert_undelivered row.id w.db) _
            (state_of_config-cleared row.id w.db.states s e))
        ∙ unsent_alerts now row s h)

-- The states of the other configurations stay as they were, however a delivery fails.
pub exhausted_other_states :
    (channel : Option Text) (task : AlertTask) (c : ℕ) (w : Worker)
    → task.config_id ≢ c
    → state_of_config c (handle_alert_exhausted channel (some task) w).db.states
      ≡ state_of_config c w.db.states
unfolding handle_alert_exhausted mark_alert_undelivered
exhausted_other_states channel task c w n =
    ground (arith, state_of_config-cleared_ne task.config_id c w.db.states n)
