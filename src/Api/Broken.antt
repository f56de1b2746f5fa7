-- ===== src/Api/Broken.antt =====
-- app/api.py and app/db.py: an update of an alert configuration that fails after its commit.
use monitoring_service.Prelude.{ℕ, ◌≡◌, false, ◌||◌, some}
use monitoring_service.Model.{Endpoint, AlertConfig, Database}
use monitoring_service.Validation.{Network}
use monitoring_service.Store.{uncaught, get_owned_endpoint, is_null}
use monitoring_service.Store.Alerts.{AlertPatch, get_owned_alert, apply_alert_patch}
use monitoring_service.Api.Alerts.{alert_read}

module _ (network : Network) where
  -- What an update that raises has found and stored.
  Raises : ℕ → ℕ → ℕ → AlertPatch → Database → Type 0
  Raises k a u p db =
      (e : Endpoint) × (get_owned_endpoint k u db ≡ some e)
      × (row : AlertConfig) × (get_owned_alert a k u db ≡ some row)
      × ((is_null p.threshold || is_null p.channel || is_null p.target || is_null p.is_active)
          ≡ false)
      × (alert_read network (apply_alert_patch p row) ≡ uncaught)
