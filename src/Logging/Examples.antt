-- ===== src/Logging/Examples.antt =====
-- The loggers of a process under uvicorn, and the theorems at them.
use monitoring_service.Prelude.{◌≡◌, refl, true, false, some, [], ◌∷◌, ◌++◌, if◌then◌else◌}
use monitoring_service.Prelude.Text.{text}
use monitoring_service.Prelude.Text.Str.{split}
use monitoring_service.Logging.{
  other_handler, stdout_handler, Name, Logger, Loggers, Logging, logger_name, name_eq,
  configure_loggers, configure_logging, shared_processors, wrap_for_formatter, formatter_of,
  is_enabled_for, written_by, level_of,
}
use monitoring_service.Logging.Routing.{is_plain, written_by-configure_logging}
use monitoring_service.Logging.Levels.{has_no_level, is_enabled_for-configure_logging}

abbrev quiet : Logger
quiet = record { handlers = []; propagate = true; level = 0; disabled = false }

-- uvicorn's own handlers; the access logger does not propagate
abbrev uvicorn : Loggers
uvicorn name =
    if name_eq name (text "access" ∷ text "uvicorn" ∷ [])
    then record {
      handlers = other_handler 1 0 ∷ [];
      propagate = false;
      level = 20;
      disabled = false;
    }
    else if name_eq name (text "uvicorn" ∷ [])
    then record {
      handlers = other_handler 0 0 ∷ [];
      propagate = false;
      level = 20;
      disabled = false;
    }
    else quiet

abbrev before : Logging
before = record { structlog_processors = []; loggers = uvicorn }

abbrev after : Logging
after = record {
  structlog_processors = shared_processors ++ wrap_for_formatter ∷ [];
  loggers = configure_loggers (text "json") 40 uvicorn;
}

abbrev access : Name
access = text "access" ∷ text "uvicorn" ∷ []

abbrev ours : Name
ours = text "alerts" ∷ text "app" ∷ []

configured_at_error : configure_logging (text "ERROR") (text "json") before ≡ some after
unfolding configure_logging level_of
configured_at_error = refl

error_level : level_of (text "ERROR") ≡ some 40
unfolding level_of
error_level = refl

access-is_plain : is_plain uvicorn access ≡ true
unfolding is_plain split
access-is_plain = refl

written_by-configure_logging_example : written_by after.loggers access 40 ≡ (
    if is_enabled_for after.loggers access 40
    then stdout_handler (formatter_of (text "json")) ∷ []
    else [])
written_by-configure_logging_example =
    written_by-configure_logging (text "ERROR") (text "json") before after access 40
      configured_at_error access-is_plain

ours-has_no_level : has_no_level uvicorn ours ≡ true
unfolding has_no_level split
ours-has_no_level = refl

is_enabled_for-configure_logging_example :
    (is_enabled_for after.loggers ours 30 ≡ false)
    × (is_enabled_for after.loggers (logger_name (text "sqlalchemy.engine")) 30 ≡ true)
    × (is_enabled_for after.loggers (logger_name (text "httpx")) 30 ≡ true)
unfolding split
is_enabled_for-configure_logging_example =
    is_enabled_for-configure_logging (text "ERROR") (text "json") before after ours 40 30
      configured_at_error error_level ours-has_no_level
