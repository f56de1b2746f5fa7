-- ===== src/Migrations/Metadata.antt =====
-- app/models.py: the tables as SQLModel's metadata declares them, which the migrations are to make,
-- and when a schema agrees with them.
use monitoring_service.Prelude.{
  Bool, true, false, ◌&&◌, Option, none, some, List, [], ◌∷◌, length, ◌==◌,
}
use monitoring_service.Prelude.Text.{Text, text, text_eq}
use monitoring_service.Prelude.Tables.{any_where, all_where}
use monitoring_service.Migrations.{
  ColumnType, integer, auto_string, date_time, boolean, enumeration, Column, ForeignKey, Table,
  Index, Schema,
}
use monitoring_service.Migrations.Versions.{column, foreign_key, index}

-- User with UserBase.
abbrev pub user_metadata : Table
user_metadata = record {
  name = text "user";
  columns =
      column (text "email") auto_string false
      ∷ column (text "id") integer false
      ∷ column (text "hashed_password") auto_string false
      ∷ column (text "created_at") date_time false
      ∷ [];
  primary_key = text "id";
  foreign_keys = [];
}

-- Endpoint with EndpointBase.
abbrev pub endpoint_metadata : Table
endpoint_metadata = record {
  name = text "endpoint";
  columns =
      column (text "url") auto_string false
      ∷ column (text "interval_seconds") integer false
      ∷ column (text "id") integer false
      ∷ column (text "user_id") integer false
      ∷ column (text "is_active") boolean false
      ∷ column (text "next_check_at") date_time false
      ∷ record {
        name = text "monitoring_since";
        column_type = date_time;
        nullable = false;
        server_default = some (text "now()");
      }
      ∷ [];
  primary_key = text "id";
  foreign_keys = foreign_key (text "user_id") (text "user") ∷ [];
}

abbrev pub checkresult_metadata : Table
checkresult_metadata = record {
  name = text "checkresult";
  columns =
      column (text "id") integer false
      ∷ column (text "endpoint_id") integer false
      ∷ column (text "checked_at") date_time false
      ∷ column (text "status_code") integer true
      ∷ column (text "error") auto_string true
      ∷ column (text "response_time_ms") integer true
      ∷ [];
  primary_key = text "id";
  foreign_keys = foreign_key (text "endpoint_id") (text "endpoint") ∷ [];
}

-- AlertConfig with AlertConfigCreate; AlertChannel is an ENUM of its members' names.
abbrev pub alertconfig_metadata : Table
alertconfig_metadata = record {
  name = text "alertconfig";
  columns =
      column (text "threshold") integer false
      ∷ column (text "channel")
          (enumeration (text "EMAIL" ∷ text "WEBHOOK" ∷ []) (text "alertchannel")) false
      ∷ column (text "target") auto_string false
      ∷ column (text "is_active") boolean false
      ∷ column (text "id") integer false
      ∷ column (text "user_id") integer false
      ∷ column (text "endpoint_id") integer false
      ∷ [];
  primary_key = text "id";
  foreign_keys =
      foreign_key (text "user_id") (text "user")
      ∷ foreign_key (text "endpoint_id") (text "endpoint")
      ∷ [];
}

abbrev pub alertstate_metadata : Table
alertstate_metadata = record {
  name = text "alertstate";
  columns =
      column (text "id") integer false
      ∷ column (text "config_id") integer false
      ∷ column (text "current_streak") integer false
      ∷ column (text "alert_sent") boolean false
      ∷ column (text "last_alert_at") date_time true
      ∷ [];
  primary_key = text "id";
  foreign_keys = foreign_key (text "config_id") (text "alertconfig") ∷ [];
}

-- Every table, and the indexes of `Index`, `index=True` and `unique=True`.
abbrev pub metadata : Schema
metadata = record {
  tables =
      user_metadata ∷ endpoint_metadata ∷ checkresult_metadata ∷ alertconfig_metadata
      ∷ alertstate_metadata ∷ [];
  indexes =
      index (text "ix_user_email") (text "user") (text "email" ∷ []) true
      ∷ index (text "ix_endpoint_user_id") (text "endpoint") (text "user_id" ∷ []) false
      ∷ index (text "ix_endpoint_due") (text "endpoint")
          (text "is_active" ∷ text "next_check_at" ∷ []) false
      ∷ index (text "ix_checkresult_latest") (text "checkresult")
          (text "endpoint_id" ∷ text "checked_at DESC" ∷ []) false
      ∷ index (text "ix_alertconfig_user_id") (text "alertconfig") (text "user_id" ∷ []) false
      ∷ index (text "ix_alertconfig_endpoint_id") (text "alertconfig") (text "endpoint_id" ∷ [])
          false
      ∷ index (text "ix_alertstate_config_id") (text "alertstate") (text "config_id" ∷ []) true
      ∷ [];
  types = text "alertchannel" ∷ [];
}

-- Two lists have the same elements, in any order, where neither has one twice.
abbrev pub same_elements : {A : Type 0} → (A → A → Bool) → List A → List A → Bool
same_elements same xs ys =
    length xs == length ys
    && (all_where (λ x. any_where (same x) ys) xs && all_where (λ y. any_where (same y) xs) ys)

abbrev texts_eq : List Text → List Text → Bool
texts_eq [] [] = true
texts_eq (a ∷ s) (b ∷ t) = text_eq a b && texts_eq s t
texts_eq _ _ = false

abbrev bool_eq : Bool → Bool → Bool
bool_eq true b = b
bool_eq false true = false
bool_eq false false = true

abbrev default_eq : Option Text → Option Text → Bool
default_eq none none = true
default_eq (some a) (some b) = text_eq a b
default_eq _ _ = false

abbrev type_eq : ColumnType → ColumnType → Bool
type_eq integer integer = true
type_eq auto_string auto_string = true
type_eq date_time date_time = true
type_eq boolean boolean = true
type_eq (enumeration values name) (enumeration values' name') =
    texts_eq values values' && text_eq name name'
type_eq _ _ = false

abbrev column_eq : Column → Column → Bool
column_eq a b =
    (text_eq a.name b.name && type_eq a.column_type b.column_type)
    && (bool_eq a.nullable b.nullable && default_eq a.server_default b.server_default)

abbrev key_eq : ForeignKey → ForeignKey → Bool
key_eq a b =
    (text_eq a.column b.column && text_eq a.referred_table b.referred_table)
    && (text_eq a.referred_column b.referred_column && text_eq a.ondelete b.ondelete)

abbrev table_eq : Table → Table → Bool
table_eq a b =
    (text_eq a.name b.name && text_eq a.primary_key b.primary_key)
    && (same_elements column_eq a.columns b.columns
        && same_elements key_eq a.foreign_keys b.foreign_keys)

abbrev index_eq : Index → Index → Bool
index_eq a b =
    (text_eq a.name b.name && text_eq a.table b.table)
    && (texts_eq a.columns b.columns && bool_eq a.unique b.unique)

-- The same tables, indexes and types, up to the order of tables, columns, keys and indexes.
abbrev pub agrees : Schema → Schema → Bool
agrees s t =
    same_elements table_eq s.tables t.tables
    && (same_elements index_eq s.indexes t.indexes && same_elements text_eq s.types t.types)
