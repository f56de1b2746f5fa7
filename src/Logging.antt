-- ===== src/Logging.antt =====
-- app/logging_config.py on the loggers of Python's `logging`. A logger stands under its name's parts,
-- the last first, so its parent is the tail and the root is the empty list. Filters and
-- `logging.disable`, which the program does not use, are left out.
pub mod Routing
pub mod Levels
mod Examples
use monitoring_service.Prelude.{
  ℕ, Bool, true, false, not, ◌&&◌, Option, none, some, List, [], ◌∷◌, ◌++◌, reverse, leb, ◌==◌,
  if◌then◌else◌,
}
use monitoring_service.Prelude.Text.{Text, text, text_eq}
use monitoring_service.Prelude.Text.Str.{split}
use monitoring_service.Prelude.Tables.{select}

-- The processors of structlog that the function names.
pub data Processor : Type 0 where
  merge_contextvars add_log_level add_logger_name time_stamper : Processor
  console_renderer format_exc_info json_renderer : Processor
  wrap_for_formatter remove_processors_meta : Processor

-- ProcessorFormatter(foreign_pre_chain=..., processors=...)
pub record Formatter : Type 0 where
  pub foreign_pre_chain : List Processor
  pub processors : List Processor

-- The handler on stdout, which has no level of its own, Python's last resort, and any other with its
-- level.
pub data Handler : Type 0 where
  stdout_handler : Formatter → Handler
  last_resort : Handler
  other_handler : ℕ → ℕ → Handler

abbrev pub Name : Type 0
Name = List Text

pub record Logger : Type 0 where
  pub handlers : List Handler
  pub propagate : Bool
  pub level : ℕ
  pub disabled : Bool

abbrev pub Loggers : Type 0
Loggers = Name → Logger

-- The logger that `getLogger(name)` returns.
abbrev pub logger_name : Text → Name
logger_name name = reverse (split b'.' name)

abbrev pub name_eq : Name → Name → Bool
name_eq [] [] = true
name_eq (a ∷ m) (b ∷ n) = text_eq a b && name_eq m n
name_eq _ _ = false

unfoldable pub set_logger : Name → (Logger → Logger) → Loggers → Loggers
set_logger name change loggers n = if name_eq name n then change (loggers n) else loggers n

-- `getEffectiveLevel`: the level of the nearest logger that has one; NOTSET is 0.
unfoldable pub effective_level : Loggers → Name → ℕ
effective_level loggers [] = (loggers []).level
effective_level loggers (part ∷ parent) =
    let above = effective_level loggers parent in
    if (loggers (part ∷ parent)).level == 0 then above else (loggers (part ∷ parent)).level

-- `isEnabledFor`
unfoldable pub is_enabled_for : Loggers → Name → ℕ → Bool
is_enabled_for loggers name level =
    not (loggers name).disabled && leb (effective_level loggers name) level

-- The handlers that `callHandlers` finds.
unfoldable pub handlers_of : Loggers → Name → List Handler
handlers_of loggers [] = (loggers []).handlers
handlers_of loggers (part ∷ parent) =
    let above = handlers_of loggers parent in
    (loggers (part ∷ parent)).handlers
    ++ (if (loggers (part ∷ parent)).propagate then above else [])

abbrev pub takes : ℕ → Handler → Bool
takes level (stdout_handler formatter) = true
takes level last_resort = leb 30 level
takes level (other_handler n own_level) = leb own_level level

-- `lastResort` stands in where no handler is found.
abbrev pub or_last_resort : List Handler → List Handler
or_last_resort [] = last_resort ∷ []
or_last_resort (h ∷ hs) = h ∷ hs

-- The handlers that write a line of this level.
unfoldable pub written_by : Loggers → Name → ℕ → List Handler
written_by loggers name level =
    if is_enabled_for loggers name level
    then select (takes level) (or_last_resort (handlers_of loggers name))
    else []

-- The names of the levels that `setLevel` knows.
unfoldable pub level_of : Text → Option ℕ
level_of name =
    if text_eq name (text "CRITICAL")
    then some 50
    else if text_eq name (text "FATAL")
    then some 50
    else if text_eq name (text "ERROR")
    then some 40
    else if text_eq name (text "WARN")
    then some 30
    else if text_eq name (text "WARNING")
    then some 30
    else if text_eq name (text "INFO")
    then some 20
    else if text_eq name (text "DEBUG")
    then some 10
    else if text_eq name (text "NOTSET")
    then some 0
    else none

abbrev pub shared_processors : List Processor
shared_processors = merge_contextvars ∷ add_log_level ∷ add_logger_name ∷ time_stamper ∷ []

unfoldable pub final_processors : Text → List Processor
final_processors log_format =
    if text_eq log_format (text "console")
    then console_renderer ∷ []
    else format_exc_info ∷ json_renderer ∷ []

abbrev pub formatter_of : Text → Formatter
formatter_of log_format = record {
  foreign_pre_chain = shared_processors;
  processors = remove_processors_meta ∷ final_processors log_format;
}

-- `structlog.configure(processors=...)`, and the loggers.
pub record Logging : Type 0 where
  pub structlog_processors : List Processor
  pub loggers : Loggers

abbrev pub uvicorn_names : List Text
uvicorn_names = text "uvicorn" ∷ text "uvicorn.error" ∷ text "uvicorn.access" ∷ []

unfoldable pub take_over : List Text → Loggers → Loggers
take_over [] loggers = loggers
take_over (name ∷ names) loggers = take_over names (
    set_logger (logger_name name) (λ (l : Logger). record l { handlers = []; propagate = true })
      loggers)

unfoldable pub set_level : Text → ℕ → Loggers → Loggers
set_level name level = set_logger (logger_name name) (λ (l : Logger). record l { level = level })

unfoldable pub configure_loggers : Text → ℕ → Loggers → Loggers
configure_loggers log_format level loggers = set_level (text "httpx") 30 (
    set_level (text "sqlalchemy.engine") 30 (
      take_over uvicorn_names (
        set_logger []
          (λ (l : Logger). record l {
            handlers = stdout_handler (formatter_of log_format) ∷ [];
            level = level;
          })
          loggers)))

abbrev pub configured : Text → Option ℕ → Logging → Option Logging
configured log_format none before = none
configured log_format (some level) before = some (record {
  structlog_processors = shared_processors ++ wrap_for_formatter ∷ [];
  loggers = configure_loggers log_format level before.loggers;
})

-- `none` is the `ValueError` of a level that `setLevel` does not know.
unfoldable pub configure_logging : Text → Text → Logging → Option Logging
configure_logging log_level log_format before = configured log_format (level_of log_level) before
