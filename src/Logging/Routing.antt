-- ===== src/Logging/Routing.antt =====
-- app/logging_config.py: which handlers write a line.
use monitoring_service.Prelude.{
  ℕ, ◌≡◌, refl, ◌∙◌, ap, sym, Bool, true, false, ◌&&◌, ◌||◌, Option, none, some, List, [], ◌∷◌,
  ◌++◌, arith, if◌then◌else◌,
}
use monitoring_service.Prelude.Text.{Text}
use monitoring_service.Prelude.Text.Str.{split}
use monitoring_service.Logging.{
  Handler, stdout_handler, Name, Logger, Loggers, logger_name, name_eq, set_logger, set_level,
  take_over, uvicorn_names, configure_loggers, configure_logging, configured, Logging, formatter_of,
  level_of, handlers_of, is_enabled_for, written_by,
}

abbrev pub any_name : List Text → Name → Bool
any_name [] n = false
any_name (name ∷ names) n = name_eq (logger_name name) n || any_name names n

abbrev pub is_empty : List Handler → Bool
is_empty [] = true
is_empty (h ∷ hs) = false

-- From the logger up to the root, every logger but those of uvicorn has no handlers and propagates.
unfoldable pub is_plain : Loggers → Name → Bool
is_plain loggers [] = true
is_plain loggers (part ∷ parent) =
    let above = is_plain loggers parent in
    (any_name uvicorn_names (part ∷ parent)
      || (is_empty (loggers (part ∷ parent)).handlers && (loggers (part ∷ parent)).propagate))
    && above

abbrev pub is_plain_logger : Logger → Bool
is_plain_logger l = is_empty l.handlers && l.propagate

handlers-plain : (hs : List Handler) → is_empty hs ≡ true → hs ≡ []
handlers-plain [] h = refl
handlers-plain (x ∷ hs) h = cc

plain_configured :
    (log_format : Text) (level : ℕ) (loggers : Loggers) (part : Text) (parent : Name)
    → (any_name uvicorn_names (part ∷ parent) || is_plain_logger (loggers (part ∷ parent))) ≡ true
    → is_plain_logger (configure_loggers log_format level loggers (part ∷ parent)) ≡ true
unfolding configure_loggers set_level set_logger take_over
plain_configured log_format level loggers part parent h = ground arith

root_configured :
    (log_format : Text) (level : ℕ) (loggers : Loggers)
    → (configure_loggers log_format level loggers []).handlers
      ≡ stdout_handler (formatter_of log_format) ∷ []
unfolding configure_loggers set_level set_logger take_over split
root_configured log_format level loggers = refl

plain_parts : (a b : Bool) → (a && b) ≡ true → (a ≡ true) × (b ≡ true)
plain_parts a b h = ground arith

handlers_of_plain :
    (handlers above : List Handler) (propagate : Bool)
    → (is_empty handlers && propagate) ≡ true
    → handlers ++ (if propagate then above else []) ≡ above
handlers_of_plain [] above true h = refl
handlers_of_plain _ above _ h = cc

handlers_of-configured :
    (log_format : Text) (level : ℕ) (loggers : Loggers) (name : Name)
    → is_plain loggers name ≡ true
    → handlers_of (configure_loggers log_format level loggers) name
      ≡ stdout_handler (formatter_of log_format) ∷ []
unfolding is_plain handlers_of
handlers_of-configured log_format level loggers [] h = root_configured log_format level loggers
handlers_of-configured log_format level loggers (part ∷ parent) h =
    let (here, up) = plain_parts _ _ h in
    handlers_of_plain _ _ _ (plain_configured log_format level loggers part parent here)
    ∙ handlers_of-configured log_format level loggers parent up

abbrev loggers_or : Loggers → Option Logging → Loggers
loggers_or loggers none = loggers
loggers_or loggers (some l) = l.loggers

loggers-configured :
    (log_format : Text) (found : Option ℕ) (before after : Logging)
    → configured log_format found before ≡ some after
    → (level : ℕ) × (found ≡ some level)
      × (after.loggers ≡ configure_loggers log_format level before.loggers)
loggers-configured log_format none before after e = cc
loggers-configured log_format (some level) before after e =
    (level, refl, sym (ap (loggers_or before.loggers) e))

pub loggers-configure_logging :
    (log_level log_format : Text) (before after : Logging)
    → configure_logging log_level log_format before ≡ some after
    → (level : ℕ) × (level_of log_level ≡ some level)
      × (after.loggers ≡ configure_loggers log_format level before.loggers)
unfolding configure_logging
loggers-configure_logging log_level log_format before after e =
    loggers-configured log_format (level_of log_level) before after e

-- Once `configure_logging` has run, whatever handlers the loggers of uvicorn had, and whether they
-- propagated or not, a line of theirs that is enabled is written once, by the handler on stdout with
-- the formatter of the log format; so is a line of any logger that, up to the root, meets none but
-- loggers of uvicorn and loggers that propagate and have no handlers.
pub written_by-configure_logging :
    (log_level log_format : Text) (before after : Logging) (name : Name) (level : ℕ)
    → configure_logging log_level log_format before ≡ some after
    → is_plain before.loggers name ≡ true
    → written_by after.loggers name level ≡ (
        if is_enabled_for after.loggers name level
        then stdout_handler (formatter_of log_format) ∷ []
        else [])
unfolding written_by
written_by-configure_logging log_level log_format before after name level e h =
    let (own, known, same) = loggers-configure_logging log_level log_format before after e in
    rw (same, handlers_of-configured log_format own before.loggers name h) refl
