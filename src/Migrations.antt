-- ===== src/Migrations.antt =====
-- alembic/env.py: the versions applied in one transaction, and what their operations do to a
-- PostgreSQL schema. Migrations/Versions has the versions.
pub mod Versions
pub mod Metadata
pub mod Apart
pub mod Frame
pub mod Chain
mod Examples
use monitoring_service.Prelude.{
  ℕ, zero, suc, Bool, true, false, not, ◌&&◌, ◌||◌, Option, none, some, List, [], ◌∷◌, ◌++◌, length,
  reverse, if◌then◌else◌,
}
use monitoring_service.Prelude.Text.{Text, text_eq}
use monitoring_service.Prelude.Tables.{
  any_where, all_where, update_where, delete_where, first_where,
}

-- `sa.Enum` has its values and the name of its type.
pub data ColumnType : Type 0 where
  integer auto_string date_time boolean : ColumnType
  enumeration : List Text → Text → ColumnType

pub record Column : Type 0 where
  pub name : Text
  pub column_type : ColumnType
  pub nullable : Bool
  pub server_default : Option Text

pub record ForeignKey : Type 0 where
  pub column : Text
  pub referred_table : Text
  pub referred_column : Text
  pub ondelete : Text

pub record Table : Type 0 where
  pub name : Text
  pub columns : List Column
  pub primary_key : Text
  pub foreign_keys : List ForeignKey

-- A column of an index is written as in SQL, a descending one with its DESC.
pub record Index : Type 0 where
  pub name : Text
  pub table : Text
  pub columns : List Text
  pub unique : Bool

-- The tables, the indexes and the names of the ENUM types.
pub record Schema : Type 0 where
  pub tables : List Table
  pub indexes : List Index
  pub types : List Text

-- The operations of `alembic.op` that the versions call.
pub data Operation : Type 0 where
  create_table : Table → Operation
  drop_table : Text → Operation
  create_index : Index → Operation
  drop_index : Text → Text → Operation
  add_column : Text → Column → Operation
  drop_column : Text → Text → Operation

abbrev pub is_table : Text → Table → Bool
is_table name t = text_eq t.name name

abbrev pub is_index : Text → Index → Bool
is_index name i = text_eq i.name name

abbrev pub is_on : Text → Index → Bool
is_on table i = text_eq i.table table

abbrev pub is_column : Text → Column → Bool
is_column name c = text_eq c.name name

abbrev pub refers : Text → Table → Bool
refers table t = any_where (λ (k : ForeignKey). text_eq k.referred_table table) t.foreign_keys

abbrev pub refers_to : Text → Text → Table → Bool
refers_to table column t =
    any_where
      (λ (k : ForeignKey). text_eq k.referred_table table && text_eq k.referred_column column)
      t.foreign_keys

abbrev pub has_table : Text → Schema → Bool
has_table name s = any_where (is_table name) s.tables

abbrev pub has_index : Text → Schema → Bool
has_index name s = any_where (is_index name) s.indexes

abbrev pub has_type : Text → Schema → Bool
has_type name s = any_where (text_eq name) s.types

-- CREATE TABLE comes after CREATE TYPE for each of its ENUM columns.
abbrev pub enum_types : List Column → List Text
enum_types [] = []
enum_types (c ∷ cs) = elim c.column_type [
  | enumeration _ name ↦ name ∷ enum_types cs
  | _ ↦ enum_types cs
]

abbrev pub referred_tables : List ForeignKey → List Text
referred_tables [] = []
referred_tables (k ∷ ks) = k.referred_table ∷ referred_tables ks

-- The column goes, with its foreign keys.
abbrev pub without_column : Text → Table → Table
without_column column t = record t {
  columns = delete_where (is_column column) t.columns;
  foreign_keys = delete_where (λ (k : ForeignKey). text_eq k.column column) t.foreign_keys;
}

abbrev pub has_column_of : Text → Text → Table → Bool
has_column_of table column t = is_table table t && any_where (is_column column) t.columns

abbrev pub is_on_column : Text → Text → Index → Bool
is_on_column table column i = is_on table i && any_where (text_eq column) i.columns

-- The operation on PostgreSQL; `none` is an error. A relation's name and a type's are taken once, a
-- table with keys on it from other tables is not dropped, and its indexes go with it.
unfoldable pub apply : Operation → Schema → Option Schema
apply (create_table t) s =
    if has_table t.name s
      || (has_index t.name s
          || (any_where (λ n. has_type n s) (enum_types t.columns)
              || not (all_where (λ n. has_table n s) (referred_tables t.foreign_keys))))
    then none
    else some (record s { tables = s.tables ++ t ∷ []; types = s.types ++ enum_types t.columns })
apply (drop_table name) s =
    if not (has_table name s) || any_where (λ t. refers name t && not (is_table name t)) s.tables
    then none
    else some (record s {
      tables = delete_where (is_table name) s.tables;
      indexes = delete_where (is_on name) s.indexes;
    })
apply (create_index i) s =
    if has_table i.name s || (has_index i.name s || not (has_table i.table s))
    then none
    else some (record s { indexes = s.indexes ++ i ∷ [] })
apply (drop_index name table) s =
    if not (has_index name s)
    then none
    else some (record s { indexes = delete_where (is_index name) s.indexes })
apply (add_column table c) s =
    if not (has_table table s) || any_where (has_column_of table c.name) s.tables
    then none
    else some (record s {
      tables =
          update_where (is_table table) (λ (t : Table). record t { columns = t.columns ++ c ∷ [] })
            s.tables;
    })
apply (drop_column table column) s =
    if not (any_where (has_column_of table column) s.tables)
      || any_where (λ t. refers_to table column t && not (is_table table t)) s.tables
    then none
    else some (record s {
      tables = update_where (is_table table) (without_column column) s.tables;
      indexes = delete_where (is_on_column table column) s.indexes;
    })

unfoldable pub run : List Operation → Schema → Option Schema
run [] s = some s
run (c ∷ cs) s = elim (apply c s) [ none ↦ none | some s' ↦ run cs s' ]

-- A file of alembic/versions.
pub record Version : Type 0 where
  pub revision : Text
  pub down_revision : Option Text
  pub upgrade : List Operation
  pub downgrade : List Operation

abbrev pub same_revision : Option Text → Option Text → Bool
same_revision none none = true
same_revision (some a) (some b) = text_eq a b
same_revision _ _ = false

-- The versions from one revision up to the head, each by the `down_revision` of the next.
unfoldable pub versions_after : ℕ → Option Text → List Version → List Version
versions_after zero from versions = []
versions_after (suc fuel) from versions =
    elim (first_where (λ (v : Version). same_revision v.down_revision from) versions) [
      | none ↦ []
      | some v ↦ v ∷ versions_after fuel (some v.revision) versions
    ]

abbrev pub upgrades : List Version → List Operation
upgrades [] = []
upgrades (v ∷ vs) = v.upgrade ++ upgrades vs

abbrev pub downgrades : List Version → List Operation
downgrades [] = []
downgrades (v ∷ vs) = downgrades vs ++ v.downgrade

-- The versions in the order of their chain.
abbrev pub chain : List Version → List Version
chain versions = versions_after (length versions) none versions

-- `alembic upgrade head` on a database with no version yet, in one transaction.
unfoldable pub upgrade_head : List Version → Schema → Option Schema
upgrade_head versions s = run (upgrades (chain versions)) s

-- `alembic downgrade base` on a database at the head.
unfoldable pub downgrade_base : List Version → Schema → Option Schema
downgrade_base versions s = run (downgrades (chain versions)) s
