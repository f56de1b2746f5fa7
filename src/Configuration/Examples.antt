-- ===== src/Configuration/Examples.antt =====
-- Environments of a deployment, and the theorems at them.
use monitoring_service.Prelude.{◌≡◌, refl, true, ◌&&◌, [], ◌∷◌}
use monitoring_service.Prelude.Text.{Text, text}
use monitoring_service.Model.Int.{pos, negsuc}
use monitoring_service.Configuration.{Environment, Configuration, imported, load}
use monitoring_service.Configuration.Loading.{
  is_imported, is_imported-load, is_set, is_integer, all_of, required, integers,
}
use monitoring_service.Configuration.RoundTrip.{environment_of, load-environment_of}

-- Texts in the case that a call is to give.
abbrev as_is : Text → Text
as_is s = s

abbrev small : Environment
small =
    (text "REDIS_URL", text "redis://redis")
    ∷ (text "DATABASE_URL", text "postgresql://db")
    ∷ (text "SMTP_PORT", text "587 ")
    ∷ []

is_imported-load_example :
    is_imported (load as_is as_is small)
    ≡ (all_of (is_set small) required && all_of (is_integer small) integers)
is_imported-load_example = is_imported-load as_is as_is small

abbrev deployed : Configuration
deployed = record {
  redis_url = text "redis://redis";
  database_url = text "postgresql://db";
  secret_key = text "k";
  algorithm = text "HS256";
  access_token_expire_minutes = pos 60;
  smtp_host = text "mail";
  smtp_port = pos 587;
  smtp_user = [];
  smtp_password = [];
  smtp_from = text "a@b.c";
  log_level = text "INFO";
  log_format = text "json";
  max_endpoints_per_user = negsuc 0;
  overdue_grace_seconds = pos 30;
  retention_days = pos 0;
  purge_batch_size = pos 10_000;
  allow_registration = true;
}

load-environment_of_example : load as_is as_is (environment_of deployed) ≡ imported deployed
load-environment_of_example = load-environment_of as_is as_is deployed refl refl refl
