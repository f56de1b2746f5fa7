-- ===== src/Configuration.antt =====
-- app/config.py: the settings that the module reads from the environment when it is imported. What
-- `load_dotenv` adds to the environment is a part of it here.
pub mod Loading
pub mod RoundTrip
mod Examples
use monitoring_service.Prelude.{
  ℕ, Bool, true, false, Option, none, some, List, [], ◌∷◌, if◌then◌else◌,
}
use monitoring_service.Prelude.Text.{Text, text, text_eq}
use monitoring_service.Prelude.Text.Decimal.{int}
use monitoring_service.Model.Int.{ℤ, of_sign}

abbrev pub Environment : Type 0
Environment = List (Text × Text)

-- The module is imported, or its import raises `KeyError` or `ValueError` at this variable.
pub data Import (A : Type 0) : Type 0 where
  imported : A → Import A
  key_error : Text → Import A
  value_error : Text → Import A

infixl 5 ◌>>=◌
abbrev pub ◌>>=◌ : {A B : Type 0} → Import A → (A → Import B) → Import B
imported a >>= f = f a
key_error key >>= f = key_error key
value_error key >>= f = value_error key

unfoldable pub lookup : Text → Environment → Option Text
lookup key [] = none
lookup key ((k, v) ∷ env) = let rest = lookup key env in if text_eq k key then some v else rest

abbrev pub found_or_error : Text → Option Text → Import Text
found_or_error key none = key_error key
found_or_error key (some v) = imported v

-- os.environ[key]
unfoldable pub environ : Environment → Text → Import Text
environ env key = found_or_error key (lookup key env)

abbrev pub found_or : Text → Option Text → Text
found_or default none = default
found_or default (some v) = v

-- os.getenv(key, default)
unfoldable pub getenv : Environment → Text → Text → Text
getenv env key default = found_or default (lookup key env)

abbrev pub int_or_error : Text → Option (Bool × ℕ) → Import ℤ
int_or_error key none = value_error key
int_or_error key (some (negative, n)) = imported (of_sign negative n)

-- int(os.getenv(key, default))
unfoldable pub getenv_int : Environment → Text → Text → Import ℤ
getenv_int env key default = int_or_error key (int (getenv env key default))

pub record Configuration : Type 0 where
  pub redis_url : Text
  pub database_url : Text
  pub secret_key : Text
  pub algorithm : Text
  pub access_token_expire_minutes : ℤ
  pub smtp_host : Text
  pub smtp_port : ℤ
  pub smtp_user : Text
  pub smtp_password : Text
  pub smtp_from : Text
  pub log_level : Text
  pub log_format : Text
  pub max_endpoints_per_user : ℤ
  pub overdue_grace_seconds : ℤ
  pub retention_days : ℤ
  pub purge_batch_size : ℤ
  pub allow_registration : Bool

-- `str.lower` and `str.upper`
module _ (lower upper : Text → Text) where
  -- The module's statements, in their order.
  unfoldable pub load : Environment → Import Configuration
  load env = do
    redis_url ← environ env (text "REDIS_URL")
    database_url ← environ env (text "DATABASE_URL")
    secret_key ← environ env (text "SECRET_KEY")
    minutes ← getenv_int env (text "ACCESS_TOKEN_EXPIRE_MINUTES") (text "30")
    smtp_port ← getenv_int env (text "SMTP_PORT") (text "1025")
    max_endpoints ← getenv_int env (text "MAX_ENDPOINTS_PER_USER") (text "30")
    grace ← getenv_int env (text "OVERDUE_GRACE_SECONDS") (text "30")
    retention_days ← getenv_int env (text "RETENTION_DAYS") (text "30")
    batch_size ← getenv_int env (text "PURGE_BATCH_SIZE") (text "10000")
    imported (record {
      redis_url = redis_url;
      database_url = database_url;
      secret_key = secret_key;
      algorithm = getenv env (text "ALGORITHM") (text "HS256");
      access_token_expire_minutes = minutes;
      smtp_host = getenv env (text "SMTP_HOST") (text "localhost");
      smtp_port = smtp_port;
      smtp_user = getenv env (text "SMTP_USER") [];
      smtp_password = getenv env (text "SMTP_PASSWORD") [];
      smtp_from = getenv env (text "SMTP_FROM") (text "monitoring@localhost");
      log_level = upper (getenv env (text "LOG_LEVEL") (text "INFO"));
      log_format = getenv env (text "LOG_FORMAT") (text "json");
      max_endpoints_per_user = max_endpoints;
      overdue_grace_seconds = grace;
      retention_days = retention_days;
      purge_batch_size = batch_size;
      allow_registration =
          text_eq (lower (getenv env (text "ALLOW_REGISTRATION") (text "false"))) (text "true");
    })
