-- ===== src/Alerts/Examples.antt =====
-- The mail of an alert, and the theorem at it.
use monitoring_service.Prelude.{ℕ, ◌≡◌, refl, Bool, true, false}
use monitoring_service.Prelude.Text.{Text, text}
use monitoring_service.Prelude.Text.Str.{contains, join}
use monitoring_service.Alerts.Body.{mail_body, written_lines}
use monitoring_service.Alerts.Messages.{subject, mail_body_lem}

abbrev url : Text
url = text "https://a.org"

abbrev at : Text
at = text "2025-01-01T00:00:00"

mail_body_lem_example :
    (mail_body true 42 url at ≡ join 10 (written_lines true 42 url at))
    × ((s : Bool) (n : ℕ) (url' timestamp' : Text)
        → contains 10 url' ≡ false
        → contains 10 timestamp' ≡ false
        → subject s n ≡ subject true 42
        → mail_body s n url' timestamp' ≡ mail_body true 42 url at
        → (s ≡ true) × (n ≡ 42) × (url' ≡ url) × (timestamp' ≡ at))
mail_body_lem_example = mail_body_lem true 42 url at refl refl
