-- ===== src/Dispatcher/Probe.antt =====
-- app/dispatcher.py: the HTTP request of a check and how its outcome is classified.
-- `httpx` is outside: what `httpx.get` returns or raises is an input.
use monitoring_service.Prelude.{
  ℕ, ◌/◌, Bool, false, ◌&&◌, Option, none, some, leb, ltb, if◌then◌else◌,
}
use monitoring_service.Prelude.Text.{Text, text}
use monitoring_service.Model.{
  CheckError, timeout, connect_error, connection_refused, dns_failure, unknown, error_text,
}

-- The classes that the walk along an exception chain tells apart.
pub data ExceptionClass : Type 0 where
  gaierror connection_refused_error other_class : ExceptionClass

-- An exception with its `__cause__` and its `__context__`; `absent` is None.
pub data Chain : Type 0 where
  absent : Chain
  raised : ExceptionClass → Chain → Chain → Chain

-- The loop follows `cause.__cause__ or cause.__context__`.
unfoldable pub classify_connect_error : Chain → CheckError
classify_connect_error absent = connect_error
classify_connect_error (raised gaierror cause context) = dns_failure
classify_connect_error (raised connection_refused_error cause context) = connection_refused
classify_connect_error (raised other_class absent context) = classify_connect_error context
classify_connect_error (raised other_class (raised c x y) context) =
    classify_connect_error (raised c x y)

unfoldable pub is_up_for : Option ℕ → Bool
is_up_for none = false
is_up_for (some status_code) = leb 200 status_code && ltb status_code 400

-- What `httpx.get` does: a response with its status and elapsed microseconds, an exception of one
-- of the classes that `perform_check` catches, or one that it does not catch.
pub data HttpOutcome : Type 0 where
  response : ℕ → ℕ → HttpOutcome
  timeout_exception : HttpOutcome
  connect_exception : Chain → HttpOutcome
  http_error : HttpOutcome
  uncaught_exception : HttpOutcome

pub record Measurement : Type 0 where
  pub status_code : Option ℕ
  pub error : Option CheckError
  pub response_time_ms : Option ℕ

abbrev failure : CheckError → Option Measurement
failure e = some (record { status_code = none; error = some e; response_time_ms = none })

-- The `try` statement; `none` is an exception that escapes.
unfoldable pub probe : HttpOutcome → Option Measurement
probe (response status elapsed) =
    some
      (record { status_code = some status; error = none; response_time_ms = some (elapsed / 1000) })
probe timeout_exception = failure timeout
probe (connect_exception exc) = failure (classify_connect_error exc)
probe http_error = failure unknown
probe uncaught_exception = none

-- The label that `CHECKS` counts the check under.
unfoldable pub outcome_label : Measurement → Text
unfolding is_up_for
outcome_label m =
    if is_up_for m.status_code
    then text "up"
    else elim m.error [ none ↦ text "http_error" | some e ↦ error_text e ]
