-- ===== src/Model.antt =====
-- app/models.py: the rows of the five tables, and the tables together.
-- A time is a number of microseconds, the resolution of `datetime` and of a timestamp column.
-- A stored row has its primary key, so `id` is a number; a text column is a list of code points.
pub mod Int
use monitoring_service.Prelude.{ℕ, ◌*◌, ◌==◌, Bool, Option, none, some, List, [], if◌then◌else◌}
use monitoring_service.Prelude.Tables.{first_where}
use monitoring_service.Prelude.Text.{Text, text}
use Int.{ℤ}

pub data AlertChannel : Type 0 where
  email webhook : AlertChannel

-- `AlertChannel.value`
abbrev pub channel_value : AlertChannel → Text
channel_value email = text "email"
channel_value webhook = text "webhook"

-- What the `error` column holds beside NULL: the texts that `perform_check` writes.
pub data CheckError : Type 0 where
  timeout dns_failure connection_refused connect_error unknown : CheckError

abbrev pub error_text : CheckError → Text
error_text timeout = text "timeout"
error_text dns_failure = text "dns_failure"
error_text connection_refused = text "connection_refused"
error_text connect_error = text "connect_error"
error_text unknown = text "unknown"

pub record User : Type 0 where
  pub id : ℕ
  pub email : Text
  pub hashed_password : Text
  pub created_at : ℕ

pub record Endpoint : Type 0 where
  pub id : ℕ
  pub user_id : ℕ
  pub url : Text
  pub interval_seconds : ℕ
  pub is_active : Bool
  pub next_check_at : ℕ
  pub monitoring_since : ℕ

pub record CheckResult : Type 0 where
  pub id : ℕ
  pub endpoint_id : ℕ
  pub checked_at : ℕ
  pub status_code : Option ℕ
  pub error : Option CheckError
  pub response_time_ms : Option ℕ

pub record AlertConfig : Type 0 where
  pub id : ℕ
  pub user_id : ℕ
  pub endpoint_id : ℕ
  pub threshold : ℤ
  pub channel : AlertChannel
  pub target : Text
  pub is_active : Bool

pub record AlertState : Type 0 where
  pub id : ℕ
  pub config_id : ℕ
  pub current_streak : ℕ
  pub alert_sent : Bool
  pub last_alert_at : Option ℕ

-- `serial` primary keys: the next number that each table's sequence hands out.
pub record Sequences : Type 0 where
  pub user_seq : ℕ
  pub endpoint_seq : ℕ
  pub result_seq : ℕ
  pub config_seq : ℕ
  pub state_seq : ℕ

pub record Database : Type 0 where
  pub users : List User
  pub endpoints : List Endpoint
  pub results : List CheckResult
  pub configs : List AlertConfig
  pub states : List AlertState
  pub seq : Sequences

abbrev pub empty : Database
empty = record {
  users = [];
  endpoints = [];
  results = [];
  configs = [];
  states = [];
  seq = record { user_seq = 1; endpoint_seq = 1; result_seq = 1; config_seq = 1; state_seq = 1 };
}

-- Microseconds in a second.
abbrev pub second : ℕ
second = 1_000_000

abbrev pub endpoint_by_id : ℕ → Database → Option Endpoint
endpoint_by_id i db = first_where (λ (e : Endpoint). e.id == i) db.endpoints

abbrev pub state_of_config : ℕ → List AlertState → Option AlertState
state_of_config c = first_where (λ s. s.config_id == c)
