-- ===== src/Migrations/Apart.antt =====
-- alembic/versions: the databases that have nothing of the names that operations use.
use monitoring_service.Prelude.{
  Bool, true, false, not, ◌&&◌, ◌||◌, ◌≡◌, List, [], ◌∷◌, ◌++◌, All, arith,
}
use monitoring_service.Prelude.Text.{Text}
use monitoring_service.Prelude.Tables.{any_where, all_where}
use monitoring_service.Migrations.{
  Schema, Operation, create_table, drop_table, create_index, drop_index, add_column, drop_column,
  is_on, refers, has_table, has_index, has_type, enum_types, referred_tables,
}

-- The names that an operation reads or writes.
abbrev pub names_of : Operation → List Text
names_of (create_table t) = t.name ∷ (enum_types t.columns ++ referred_tables t.foreign_keys)
names_of (drop_table name) = name ∷ []
names_of (create_index i) = i.name ∷ i.table ∷ []
names_of (drop_index name table) = name ∷ []
names_of (add_column table c) = table ∷ []
names_of (drop_column table column) = table ∷ []

-- A database has nothing of a name: no table, index or type, no key and no index on it.
pub record Lacks (b : Schema) (name : Text) : Type 0 where
  pub no_table : has_table name b ≡ false
  pub no_index : has_index name b ≡ false
  pub no_type : has_type name b ≡ false
  pub no_index_on : any_where (is_on name) b.indexes ≡ false
  pub no_key : any_where (refers name) b.tables ≡ false

abbrev pub Apart : Schema → List Operation → Type 0
Apart b [] = Unit
Apart b (c ∷ cs) = All (Lacks b) (names_of c) × Apart b cs

abbrev lacks : Schema → Text → Bool
lacks b name =
    not (has_table name b || has_index name b)
    && (not (has_type name b)
        && not (any_where (is_on name) b.indexes || any_where (refers name) b.tables))

abbrev pub is_apart : Schema → List Operation → Bool
is_apart b [] = true
is_apart b (c ∷ cs) = all_where (lacks b) (names_of c) && is_apart b cs

lacks_sound : (b : Schema) (name : Text) → lacks b name ≡ true → Lacks b name
lacks_sound b name h = record {
  no_table = ground arith;
  no_index = ground arith;
  no_type = ground arith;
  no_index_on = ground arith;
  no_key = ground arith;
}

All-lacks_sound :
    (b : Schema) (names : List Text) → all_where (lacks b) names ≡ true → All (Lacks b) names
All-lacks_sound b [] h = tt
All-lacks_sound b (n ∷ ns) h = (lacks_sound b n (ground arith), All-lacks_sound b ns (ground arith))

pub is_apart_sound : (b : Schema) (cs : List Operation) → is_apart b cs ≡ true → Apart b cs
is_apart_sound b [] h = tt
is_apart_sound b (c ∷ cs) h =
    (All-lacks_sound b (names_of c) (ground arith), is_apart_sound b cs (ground arith))
