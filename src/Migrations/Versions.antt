-- ===== src/Migrations/Versions.antt =====
-- alembic/versions: the four versions, in the order of their files' names.
use monitoring_service.Prelude.{Bool, true, false, none, some, List, [], ◌∷◌}
use monitoring_service.Prelude.Text.{Text, text}
use monitoring_service.Migrations.{
  ColumnType, integer, auto_string, date_time, boolean, enumeration, Column, ForeignKey, Table,
  Index, create_table, drop_table, create_index, drop_index, add_column, drop_column, Version,
}

abbrev pub column : Text → ColumnType → Bool → Column
column name column_type nullable = record {
  name = name;
  column_type = column_type;
  nullable = nullable;
  server_default = none;
}

-- `ForeignKeyConstraint([column], [table.id], ondelete='CASCADE')`
abbrev pub foreign_key : Text → Text → ForeignKey
foreign_key column table = record {
  column = column;
  referred_table = table;
  referred_column = text "id";
  ondelete = text "CASCADE";
}

abbrev pub index : Text → Text → List Text → Bool → Index
index name table columns unique = record {
  name = name;
  table = table;
  columns = columns;
  unique = unique;
}

abbrev pub user_table : Table
user_table = record {
  name = text "user";
  columns =
      column (text "email") auto_string false
      ∷ column (text "id") integer false
      ∷ column (text "hashed_password") auto_string false
      ∷ column (text "created_at") date_time false
      ∷ [];
  primary_key = text "id";
  foreign_keys = [];
}

abbrev pub endpoint_table : Table
endpoint_table = record {
  name = text "endpoint";
  columns =
      column (text "id") integer false
      ∷ column (text "user_id") integer false
      ∷ column (text "url") auto_string false
      ∷ column (text "interval_seconds") integer false
      ∷ column (text "is_active") boolean false
      ∷ column (text "next_check_at") date_time false
      ∷ [];
  primary_key = text "id";
  foreign_keys = foreign_key (text "user_id") (text "user") ∷ [];
}

abbrev pub checkresult_table : Table
checkresult_table = record {
  name = text "checkresult";
  columns =
      column (text "id") integer false
      ∷ column (text "endpoint_id") integer false
      ∷ column (text "checked_at") date_time false
      ∷ column (text "status_code") integer true
      ∷ column (text "error") auto_string true
      ∷ column (text "response_time_ms") integer true
      ∷ [];
  primary_key = text "id";
  foreign_keys = foreign_key (text "endpoint_id") (text "endpoint") ∷ [];
}

abbrev pub ix_checkresult_endpoint_id : Index
ix_checkresult_endpoint_id =
    index (text "ix_checkresult_endpoint_id") (text "checkresult") (text "endpoint_id" ∷ []) false

abbrev pub initial_schema : Version
initial_schema = record {
  revision = text "54b9dac1d998";
  down_revision = none;
  upgrade =
      create_table user_table
      ∷ create_index (index (text "ix_user_email") (text "user") (text "email" ∷ []) true)
      ∷ create_table endpoint_table
      ∷ create_index (
          index (text "ix_endpoint_due") (text "endpoint")
            (text "is_active" ∷ text "next_check_at" ∷ []) false)
      ∷ create_index
          (index (text "ix_endpoint_user_id") (text "endpoint") (text "user_id" ∷ []) false)
      ∷ create_table checkresult_table
      ∷ create_index ix_checkresult_endpoint_id
      ∷ [];
  downgrade =
      drop_index (text "ix_checkresult_endpoint_id") (text "checkresult")
      ∷ drop_table (text "checkresult")
      ∷ drop_index (text "ix_endpoint_user_id") (text "endpoint")
      ∷ drop_index (text "ix_endpoint_due") (text "endpoint")
      ∷ drop_table (text "endpoint")
      ∷ drop_index (text "ix_user_email") (text "user")
      ∷ drop_table (text "user")
      ∷ [];
}

abbrev pub add_checkresult_latest_index : Version
add_checkresult_latest_index = record {
  revision = text "558d870f9035";
  down_revision = some (text "b794db3040c8");
  upgrade =
      drop_index (text "ix_checkresult_endpoint_id") (text "checkresult")
      ∷ create_index (
          index (text "ix_checkresult_latest") (text "checkresult")
            (text "endpoint_id" ∷ text "checked_at DESC" ∷ []) false)
      ∷ [];
  downgrade =
      drop_index (text "ix_checkresult_latest") (text "checkresult")
      ∷ create_index ix_checkresult_endpoint_id
      ∷ [];
}

abbrev pub monitoring_since : Column
monitoring_since = record {
  name = text "monitoring_since";
  column_type = date_time;
  nullable = false;
  server_default = some (text "now()");
}

abbrev pub add_monitoring_since : Version
add_monitoring_since = record {
  revision = text "9f82763f8f69";
  down_revision = some (text "558d870f9035");
  upgrade = add_column (text "endpoint") monitoring_since ∷ [];
  downgrade = drop_column (text "endpoint") (text "monitoring_since") ∷ [];
}

abbrev pub alertconfig_table : Table
alertconfig_table = record {
  name = text "alertconfig";
  columns =
      column (text "id") integer false
      ∷ column (text "user_id") integer false
      ∷ column (text "endpoint_id") integer false
      ∷ column (text "threshold") integer false
      ∷ column (text "channel")
          (enumeration (text "EMAIL" ∷ text "WEBHOOK" ∷ []) (text "alertchannel")) false
      ∷ column (text "target") auto_string false
      ∷ column (text "is_active") boolean false
      ∷ [];
  primary_key = text "id";
  foreign_keys =
      foreign_key (text "endpoint_id") (text "endpoint")
      ∷ foreign_key (text "user_id") (text "user")
      ∷ [];
}

abbrev pub alertstate_table : Table
alertstate_table = record {
  name = text "alertstate";
  columns =
      column (text "id") integer false
      ∷ column (text "config_id") integer false
      ∷ column (text "current_streak") integer false
      ∷ column (text "alert_sent") boolean false
      ∷ column (text "last_alert_at") date_time true
      ∷ [];
  primary_key = text "id";
  foreign_keys = foreign_key (text "config_id") (text "alertconfig") ∷ [];
}

abbrev pub add_alert_config_and_state : Version
add_alert_config_and_state = record {
  revision = text "b794db3040c8";
  down_revision = some (text "54b9dac1d998");
  upgrade =
      create_table alertconfig_table
      ∷ create_index (
          index (text "ix_alertconfig_endpoint_id") (text "alertconfig") (text "endpoint_id" ∷ [])
            false)
      ∷ create_index
          (index (text "ix_alertconfig_user_id") (text "alertconfig") (text "user_id" ∷ []) false)
      ∷ create_table alertstate_table
      ∷ create_index
          (index (text "ix_alertstate_config_id") (text "alertstate") (text "config_id" ∷ []) true)
      ∷ [];
  downgrade =
      drop_index (text "ix_alertstate_config_id") (text "alertstate")
      ∷ drop_table (text "alertstate")
      ∷ drop_index (text "ix_alertconfig_user_id") (text "alertconfig")
      ∷ drop_index (text "ix_alertconfig_endpoint_id") (text "alertconfig")
      ∷ drop_table (text "alertconfig")
      ∷ [];
}

-- The files of alembic/versions.
abbrev pub versions : List Version
versions =
    initial_schema ∷ add_checkresult_latest_index ∷ add_monitoring_since
    ∷ add_alert_config_and_state ∷ []
