-- ===== src/Worker/History.antt =====
-- app/dispatcher.py with app/alerts.py: what the history of one configuration calls for. A history is
-- the outcomes of the committed checks of its endpoint, and the down alerts for it that were given
-- up, the newest first.
use monitoring_service.Prelude.{
  ℕ, zero, suc, ◌+◌, ◌≤◌, ◌≡◌, refl, Bool, true, false, not, ◌&&◌, ◌||◌, Option, none, some, List,
  [], ◌∷◌, ◌++◌, arith, ◌==◌, leb, if◌then◌else◌,
}
use monitoring_service.Prelude.Tables.{count_where, count_where-append}
use monitoring_service.Model.Int.{ℤ, pos, negsuc}
use monitoring_service.Dispatcher.Progress.{advance}
use monitoring_service.Dispatcher.History.{alerting_failure, to_list}

pub data Mark : Type 0 where
  outcome : Bool → Mark
  gave_up : Mark

-- Failures in a row up to the newest check.
unfoldable pub failures : List Mark → ℕ
failures [] = 0
failures (gave_up ∷ h) = failures h
failures (outcome true ∷ h) = 0
failures (outcome false ∷ h) = failures h + 1

-- Those of them that came after the last alert that was given up.
unfoldable pub failures_since : List Mark → ℕ
failures_since [] = 0
failures_since (gave_up ∷ h) = 0
failures_since (outcome true ∷ h) = 0
failures_since (outcome false ∷ h) = failures_since h + 1

-- The present outage has reached the threshold, and not only before an alert was given up.
unfoldable pub flagged : ℤ → List Mark → Bool
flagged threshold h = leb 1 (failures_since h) && leb (alerting_failure threshold) (failures h)

-- What a mark sends: a recovery if the outage that ends is flagged; a down alert at the failure that
-- reaches the threshold, and at the first one past it after an alert was given up.
unfoldable pub message_of : ℤ → List Mark → Mark → Option Bool
message_of threshold h gave_up = none
message_of threshold h (outcome true) = if flagged threshold h then some true else none
message_of threshold h (outcome false) =
    if failures h + 1 == alerting_failure threshold
      || (failures_since h == 0 && leb (alerting_failure threshold) (failures h + 1))
    then some false
    else none

-- All messages of a history, the oldest first; true is a recovery.
unfoldable pub messages_of : ℤ → List Mark → List Bool
messages_of threshold [] = []
messages_of threshold (m ∷ h) = messages_of threshold h ++ to_list (message_of threshold h m)

abbrev pub described : ℤ → List Mark → ℕ × Bool
described threshold h = (failures h, flagged threshold h)

-- The state machine of the loop computes the description.
pub advance-described :
    (threshold : ℤ) (h : List Mark) (up : Bool)
    → advance up threshold (described threshold h)
      ≡ (described threshold (outcome up ∷ h), message_of threshold h (outcome up))
unfolding advance failures failures_since flagged message_of
advance-described (pos zero) h true = ground arith
advance-described (pos (suc n)) h true = ground arith
advance-described (negsuc n) h true = ground arith
advance-described (pos zero) h false = ground arith
advance-described (pos (suc n)) h false = ground arith
advance-described (negsuc n) h false = ground arith

pub described-gave_up :
    (threshold : ℤ) (h : List Mark) → described threshold (gave_up ∷ h) ≡ (failures h, false)
unfolding failures failures_since flagged
described-gave_up threshold h = refl

pub described_fresh : (threshold : ℤ) → described threshold [] ≡ (0, false)
unfolding failures failures_since flagged
described_fresh threshold = refl

-- Recoveries and down alerts among messages.
abbrev pub recoveries : List Bool → ℕ
recoveries = count_where (λ k. k)

abbrev pub downs : List Bool → ℕ
downs = count_where not

-- One alert that no recovery has answered, if the outage is flagged.
abbrev pub open_alerts : Bool → ℕ
open_alerts sent = if sent then 1 else 0

abbrev pub is_gave_up : Mark → Bool
is_gave_up gave_up = true
is_gave_up (outcome up) = false

abbrev pub give_ups : List Mark → ℕ
give_ups = count_where is_gave_up

-- What one mark adds to the counts.
mark_bounds :
    (threshold : ℤ) (h : List Mark) (m : Mark)
    → (recoveries (to_list (message_of threshold h m)) + open_alerts (flagged threshold (m ∷ h))
        ≤ downs (to_list (message_of threshold h m)) + open_alerts (flagged threshold h))
      × (downs (to_list (message_of threshold h m)) + open_alerts (flagged threshold h)
          ≤ recoveries (to_list (message_of threshold h m))
            + open_alerts (flagged threshold (m ∷ h))
            + give_ups (m ∷ []))
unfolding message_of flagged failures failures_since
mark_bounds threshold h gave_up = ground arith
mark_bounds threshold h (outcome true) = ground arith
mark_bounds threshold h (outcome false) = ground arith

-- Every recovery answers a down alert before it, and one more has been sent where the outage is
-- flagged; any further down alerts are at most as many as were given up.
pub messages_of_bounds :
    (threshold : ℤ) (h : List Mark)
    → (recoveries (messages_of threshold h) + open_alerts (flagged threshold h)
        ≤ downs (messages_of threshold h))
      × (downs (messages_of threshold h)
          ≤ recoveries (messages_of threshold h) + open_alerts (flagged threshold h) + give_ups h)
unfolding messages_of
messages_of_bounds threshold [] = unfold flagged failures failures_since in ground arith
messages_of_bounds threshold (m ∷ h) =
    let sent = to_list (message_of threshold h m) in
    omega (
      arith,
      messages_of_bounds threshold h,
      mark_bounds threshold h m,
      count_where-append (λ k. k) (messages_of threshold h) sent,
      count_where-append not (messages_of threshold h) sent,
    )
