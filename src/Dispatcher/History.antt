-- ===== src/Dispatcher/History.antt =====
-- A configuration's state and alerts against the history of its endpoint's checks.
-- A history is the list of the outcomes (up or not) of the committed checks, the newest first.
use mathlib.Core.List.{append-nil}
use monitoring_service.Prelude.{
  ℕ, zero, suc, ◌+◌, ◌≤◌, ◌≡◌, ◌⊎◌, ◌++◌, Bool, true, false, not, Option, none, some, List, [], ◌∷◌,
  arith, ◌==◌, leb, if◌then◌else◌,
}
use monitoring_service.Model.Int.{ℤ, pos, negsuc}
use monitoring_service.Dispatcher.Progress.{advance}

-- Checks in a row, up to the newest, that were not up.
unfoldable pub trailing_failures : List Bool → ℕ
trailing_failures [] = 0
trailing_failures (true ∷ h) = 0
trailing_failures (false ∷ h) = trailing_failures h + 1

-- The failure in a row that sends the alert: a threshold of zero or less acts as one.
abbrev pub alerting_failure : ℤ → ℕ
alerting_failure (pos zero) = 1
alerting_failure (pos (suc n)) = suc n
alerting_failure (negsuc n) = 1

-- The outage at the end of the history has been alerted.
unfoldable pub outage_alerted : ℤ → List Bool → Bool
outage_alerted threshold h = leb (alerting_failure threshold) (trailing_failures h)

-- The message that a check sends: the recovery of an alerted outage, or the alert of the failure
-- that reaches the threshold, and nothing else.
unfoldable pub message_after : ℤ → List Bool → Bool → Option Bool
message_after threshold h true = if outage_alerted threshold h then some true else none
message_after threshold h false =
    if trailing_failures h + 1 == alerting_failure threshold then some false else none

abbrev pub to_list : Option Bool → List Bool
to_list none = []
to_list (some k) = k ∷ []

-- All messages of a history, the oldest first; true is a recovery.
unfoldable pub messages : ℤ → List Bool → List Bool
messages threshold [] = []
messages threshold (up ∷ h) = messages threshold h ++ to_list (message_after threshold h up)

abbrev pub expected : ℤ → List Bool → ℕ × Bool
expected threshold h = (trailing_failures h, outage_alerted threshold h)

-- The state machine of the loop computes the description by histories.
pub advance-expected :
    (threshold : ℤ) (h : List Bool) (up : Bool)
    → advance up threshold (expected threshold h)
      ≡ (expected threshold (up ∷ h), message_after threshold h up)
unfolding advance trailing_failures outage_alerted message_after
advance-expected (pos zero) h true = ground arith
advance-expected (pos (suc n)) h true = ground arith
advance-expected (negsuc n) h true = ground arith
advance-expected (pos zero) h false = ground arith
advance-expected (pos (suc n)) h false = ground arith
advance-expected (negsuc n) h false = ground arith

-- Down and recovery in turn, `next` first.
abbrev pub Alternating : Bool → List Bool → Type 0
Alternating next [] = Unit
Alternating next (k ∷ ks) = (k ≡ next) × Alternating (not next) ks

-- What comes after them.
abbrev following : Bool → List Bool → Bool
following next [] = next
following next (k ∷ ks) = following (not next) ks

Alternating-append :
    (next : Bool) (ks : List Bool) (k : Bool)
    → Alternating next ks
    → k ≡ following next ks
    → Alternating next (ks ++ k ∷ []) × (following next (ks ++ k ∷ []) ≡ not k)
Alternating-append next [] k h e = ground arith
Alternating-append next (j ∷ ks) k h e = ground (arith, Alternating-append (not next) ks k h.1 e)

pub alerting_failure_pos : (threshold : ℤ) → 1 ≤ alerting_failure threshold
alerting_failure_pos (pos zero) = omega arith
alerting_failure_pos (pos (suc n)) = omega arith
alerting_failure_pos (negsuc n) = omega arith

to_list-Alternating :
    (ks : List Bool) (o : Option Bool) (sent sent' : Bool)
    → Alternating false ks × (following false ks ≡ sent)
    → ((o ≡ none) × (sent' ≡ sent)) ⊎ ((o ≡ some sent) × (sent' ≡ not sent))
    → Alternating false (ks ++ to_list o) × (following false (ks ++ to_list o) ≡ sent')
to_list-Alternating ks none sent sent' h e = ground (arith, append-nil ks)
to_list-Alternating ks (some k) sent sent' h e = ground (arith, Alternating-append false ks k h.0)

-- What one check sends fits what came before.
message_after-cases :
    (threshold : ℤ) (h : List Bool) (up : Bool)
    → ((message_after threshold h up ≡ none)
        × (outage_alerted threshold (up ∷ h) ≡ outage_alerted threshold h))
      ⊎ ((message_after threshold h up ≡ some (outage_alerted threshold h))
          × (outage_alerted threshold (up ∷ h) ≡ not (outage_alerted threshold h)))
unfolding message_after outage_alerted trailing_failures
message_after-cases threshold h true = ground (arith, alerting_failure_pos threshold)
message_after-cases threshold h false = ground arith

-- The messages of a history alternate, and a recovery is next exactly if the outage at its end has
-- been alerted.
pub messages-Alternating :
    (threshold : ℤ) (h : List Bool)
    → Alternating false (messages threshold h)
      × (following false (messages threshold h) ≡ outage_alerted threshold h)
unfolding messages
messages-Alternating threshold [] =
    unfold outage_alerted trailing_failures in ground (arith, alerting_failure_pos threshold)
messages-Alternating threshold (up ∷ h) =
    to_list-Alternating (messages threshold h) (message_after threshold h up)
      (outage_alerted threshold h) (outage_alerted threshold (up ∷ h))
      (messages-Alternating threshold h) (message_after-cases threshold h up)
