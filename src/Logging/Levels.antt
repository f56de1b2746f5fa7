-- ===== src/Logging/Levels.antt =====
-- app/logging_config.py: which lines a logger lets through.
use monitoring_service.Prelude.{
  ℕ, ◌≡◌, refl, ◌∙◌, sym, Bool, true, not, ◌&&◌, some, List, [], ◌∷◌, arith, leb, ◌==◌,
}
use monitoring_service.Prelude.Text.{Text, text}
use monitoring_service.Prelude.Text.Str.{split}
use monitoring_service.Logging.{
  Name, Loggers, logger_name, set_logger, set_level, take_over, configure_loggers,
  configure_logging, Logging, level_of, effective_level, is_enabled_for,
}
use monitoring_service.Logging.Routing.{any_name, loggers-configure_logging}

-- The loggers whose lines are noise below WARNING.
abbrev pub noise_names : List Text
noise_names = text "sqlalchemy.engine" ∷ text "httpx" ∷ []

-- From the logger up to the root, no logger has a level of its own, nor is given one.
unfoldable pub has_no_level : Loggers → Name → Bool
has_no_level loggers [] = true
has_no_level loggers (part ∷ parent) =
    let above = has_no_level loggers parent in
    (not (any_name noise_names (part ∷ parent)) && (loggers (part ∷ parent)).level == 0) && above

no_level_configured :
    (log_format : Text) (level : ℕ) (loggers : Loggers) (part : Text) (parent : Name)
    → (not (any_name noise_names (part ∷ parent)) && (loggers (part ∷ parent)).level == 0) ≡ true
    → (configure_loggers log_format level loggers (part ∷ parent)).level ≡ 0
unfolding configure_loggers set_level set_logger take_over
no_level_configured log_format level loggers part parent h = ground arith

root_level :
    (log_format : Text) (level : ℕ) (loggers : Loggers)
    → (configure_loggers log_format level loggers []).level ≡ level
unfolding configure_loggers set_level set_logger take_over split
root_level log_format level loggers = refl

effective_level-configure_loggers :
    (log_format : Text) (level : ℕ) (loggers : Loggers) (name : Name)
    → has_no_level loggers name ≡ true
    → effective_level (configure_loggers log_format level loggers) name ≡ level
unfolding has_no_level effective_level
effective_level-configure_loggers log_format level loggers [] h =
    root_level log_format level loggers
effective_level-configure_loggers log_format level loggers (part ∷ parent) h = ground (
  arith,
  no_level_configured log_format level loggers part parent,
  effective_level-configure_loggers log_format level loggers parent,
)

disabled-configure_loggers :
    (log_format : Text) (level : ℕ) (loggers : Loggers) (name : Name)
    → (configure_loggers log_format level loggers name).disabled ≡ (loggers name).disabled
unfolding configure_loggers set_level set_logger take_over
disabled-configure_loggers log_format level loggers name = ground arith

noise_level :
    (log_format : Text) (level : ℕ) (loggers : Loggers)
    → (effective_level
          (configure_loggers log_format level loggers)
          (logger_name (text "sqlalchemy.engine"))
        ≡ 30)
      × (effective_level (configure_loggers log_format level loggers) (logger_name (text "httpx"))
          ≡ 30)
unfolding configure_loggers set_level set_logger take_over split effective_level
noise_level log_format level loggers = (refl, refl)

-- Once `configure_logging` has run with a LOG_LEVEL that it knows, a logger that is not disabled and
-- has no level of its own or above it, the root's aside, lets the lines at or above LOG_LEVEL through;
-- the loggers of the SQL statements and of httpx let those at or above WARNING (30) through, whatever
-- LOG_LEVEL is.
pub is_enabled_for-configure_logging :
    (log_level log_format : Text) (before after : Logging) (name : Name) (own line_level : ℕ)
    → configure_logging log_level log_format before ≡ some after
    → level_of log_level ≡ some own
    → has_no_level before.loggers name ≡ true
    → (is_enabled_for after.loggers name line_level
        ≡ (not (before.loggers name).disabled && leb own line_level))
      × (is_enabled_for after.loggers (logger_name (text "sqlalchemy.engine")) line_level ≡ (
          not (before.loggers (logger_name (text "sqlalchemy.engine"))).disabled
          && leb 30 line_level))
      × (is_enabled_for after.loggers (logger_name (text "httpx")) line_level
          ≡ (not (before.loggers (logger_name (text "httpx"))).disabled && leb 30 line_level))
unfolding is_enabled_for
is_enabled_for-configure_logging log_level log_format before after name own line_level e k h =
    let (level, known, same) = loggers-configure_logging log_level log_format before after e in
    let found : level ≡ own = cc (sym known ∙ k) in
    let noise = noise_level log_format own before.loggers in
    let kept = disabled-configure_loggers log_format own before.loggers in
    rw
      (
        same,
        found,
        kept name,
        kept (logger_name (text "sqlalchemy.engine")),
        kept (logger_name (text "httpx")),
        noise.0,
        noise.1,
        effective_level-configure_loggers log_format own before.loggers name h,
      )
      (refl, refl, refl)
