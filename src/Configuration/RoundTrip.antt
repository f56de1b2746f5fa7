-- ===== src/Configuration/RoundTrip.antt =====
-- app/config.py: an environment for a configuration.
use monitoring_service.Prelude.{suc, ◌≡◌, refl, ap, Bool, true, false, [], ◌∷◌}
use monitoring_service.Prelude.Text.{Text, text, text_eq}
use monitoring_service.Prelude.Text.Decimal.{int, str, int-str, int-str_negative}
use monitoring_service.Model.Int.{ℤ, pos, negsuc}
use monitoring_service.Configuration.{
  Environment, imported, lookup, environ, getenv, getenv_int, int_or_error, Configuration, load,
}

abbrev pub text_of : ℤ → Text
text_of (pos n) = str n
text_of (negsuc n) = b'-' ∷ str (suc n)

abbrev pub flag_of : Bool → Text
flag_of true = text "true"
flag_of false = text "false"

-- What a deployment sets for this configuration.
abbrev pub environment_of : Configuration → Environment
environment_of c =
    (text "REDIS_URL", c.redis_url)
    ∷ (text "DATABASE_URL", c.database_url)
    ∷ (text "SECRET_KEY", c.secret_key)
    ∷ (text "ALGORITHM", c.algorithm)
    ∷ (text "ACCESS_TOKEN_EXPIRE_MINUTES", text_of c.access_token_expire_minutes)
    ∷ (text "SMTP_HOST", c.smtp_host)
    ∷ (text "SMTP_PORT", text_of c.smtp_port)
    ∷ (text "SMTP_USER", c.smtp_user)
    ∷ (text "SMTP_PASSWORD", c.smtp_password)
    ∷ (text "SMTP_FROM", c.smtp_from)
    ∷ (text "LOG_LEVEL", c.log_level)
    ∷ (text "LOG_FORMAT", c.log_format)
    ∷ (text "MAX_ENDPOINTS_PER_USER", text_of c.max_endpoints_per_user)
    ∷ (text "OVERDUE_GRACE_SECONDS", text_of c.overdue_grace_seconds)
    ∷ (text "RETENTION_DAYS", text_of c.retention_days)
    ∷ (text "PURGE_BATCH_SIZE", text_of c.purge_batch_size)
    ∷ (text "ALLOW_REGISTRATION", flag_of c.allow_registration)
    ∷ []

int_or_error-text_of : (key : Text) (z : ℤ) → int_or_error key (int (text_of z)) ≡ imported z
int_or_error-text_of key (pos n) = ap (int_or_error key) (int-str n)
int_or_error-text_of key (negsuc n) = ap (int_or_error key) (int-str_negative (suc n))

flag-flag_of :
    (lower : Text → Text) (b : Bool)
    → lower (text "true") ≡ text "true"
    → lower (text "false") ≡ text "false"
    → text_eq (lower (flag_of b)) (text "true") ≡ b
flag-flag_of lower true t f = rw t refl
flag-flag_of lower false t f = rw f refl

module _ (lower upper : Text → Text) (c : Configuration) where
  -- For every configuration whose log level is in capitals, where `str.lower` keeps "true" and
  -- "false" as they are, there is an environment that the module reads the configuration from.
  pub load-environment_of :
      lower (text "true") ≡ text "true"
      → lower (text "false") ≡ text "false"
      → upper c.log_level ≡ c.log_level
      → load lower upper (environment_of c) ≡ imported c
  unfolding load environ getenv getenv_int lookup
  load-environment_of t f u =
      rw
        (
          int_or_error-text_of,
          int_or_error-text_of,
          int_or_error-text_of,
          int_or_error-text_of,
          int_or_error-text_of,
          int_or_error-text_of,
          u,
          flag-flag_of lower c.allow_registration t f,
        )
        refl
