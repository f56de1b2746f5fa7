-- ===== src/Migrations/Frame.antt =====
-- alembic/versions: an operation beside other tables of the database that it does not name.
use mathlib.Core.List.{append_assoc}
use monitoring_service.Prelude.{
  Bool, false, not, ◌&&◌, ◌||◌, ◌≡◌, ◌∙◌, ap, refl, Option, none, some, List, [], ◌∷◌, ◌++◌, All,
  Bool-cases, Option-cases, inl, inr, arith, if◌then◌else◌,
}
use monitoring_service.Prelude.Text.{Text, text_eq}
use monitoring_service.Prelude.Tables.{
  any_where, all_where, update_where, delete_where, select-append, any_where-append, any_where_mono,
  delete_where_none, update_where_none, update_where-append,
}
use monitoring_service.Migrations.Apart.{names_of, Lacks, Apart}
use monitoring_service.Migrations.{
  ForeignKey, Table, Index, Schema, Operation, create_table, drop_table, create_index, drop_index,
  add_column, drop_column, is_table, is_index, is_on, refers, has_table, has_index, has_type,
  enum_types, referred_tables, without_column, has_column_of, is_on_column, refers_to, apply, run,
}

-- Two databases in one.
abbrev pub beside : Schema → Schema → Schema
beside b l = record {
  tables = b.tables ++ l.tables;
  indexes = b.indexes ++ l.indexes;
  types = b.types ++ l.types;
}

abbrev pub beside_result : Schema → Option Schema → Option Schema
beside_result b none = none
beside_result b (some l) = some (beside b l)

pub Schema_path :
    (s t : Schema) → s.tables ≡ t.tables → s.indexes ≡ t.indexes → s.types ≡ t.types → s ≡ t
Schema_path s t e f g = λ i. record { tables = e i; indexes = f i; types = g i }

module _ (b : Schema) where
  has_table-beside : (l : Schema) (n : Text) → Lacks b n → has_table n (beside b l) ≡ has_table n l
  has_table-beside l n h =
      any_where-append (is_table n) b.tables l.tables ∙ ap (λ x. x || has_table n l) h.no_table

  has_index-beside : (l : Schema) (n : Text) → Lacks b n → has_index n (beside b l) ≡ has_index n l
  has_index-beside l n h =
      any_where-append (is_index n) b.indexes l.indexes ∙ ap (λ x. x || has_index n l) h.no_index

  has_types-beside :
      (l : Schema) (ns : List Text)
      → All (Lacks b) ns
      → any_where (λ n. has_type n (beside b l)) ns ≡ any_where (λ n. has_type n l) ns
  has_types-beside l [] h = refl
  has_types-beside l (n ∷ ns) h =
      ground (
        arith,
        any_where-append (text_eq n) b.types l.types,
        h.0.no_type,
        has_types-beside l ns h.1,
      )

  has_tables-beside :
      (l : Schema) (ns : List Text)
      → All (Lacks b) ns
      → all_where (λ n. has_table n (beside b l)) ns ≡ all_where (λ n. has_table n l) ns
  has_tables-beside l [] h = refl
  has_tables-beside l (n ∷ ns) h =
      ground (arith, has_table-beside l n h.0, has_tables-beside l ns h.1)

  any_table-beside :
      (test : Table → Bool) (l : Schema)
      → any_where test b.tables ≡ false
      → any_where test (beside b l).tables ≡ any_where test l.tables
  any_table-beside test l h =
      any_where-append test b.tables l.tables ∙ ap (λ x. x || any_where test l.tables) h

  delete_tables-beside :
      (test : Table → Bool) (l : Schema)
      → any_where test b.tables ≡ false
      → delete_where test (beside b l).tables ≡ b.tables ++ delete_where test l.tables
  delete_tables-beside test l h =
      select-append (λ x. not (test x)) b.tables l.tables
      ∙ ap (λ xs. xs ++ delete_where test l.tables) (delete_where_none test b.tables h)

  delete_indexes-beside :
      (test : Index → Bool) (l : Schema)
      → any_where test b.indexes ≡ false
      → delete_where test (beside b l).indexes ≡ b.indexes ++ delete_where test l.indexes
  delete_indexes-beside test l h =
      select-append (λ x. not (test x)) b.indexes l.indexes
      ∙ ap (λ xs. xs ++ delete_where test l.indexes) (delete_where_none test b.indexes h)

  update_tables-beside :
      (n : Text) (change : Table → Table) (l : Schema)
      → Lacks b n
      → update_where (is_table n) change (beside b l).tables
        ≡ b.tables ++ update_where (is_table n) change l.tables
  update_tables-beside n change l h =
      update_where-append (is_table n) change b.tables l.tables
      ∙ ap (λ xs. xs ++ update_where (is_table n) change l.tables)
          (update_where_none (is_table n) change b.tables h.no_table)

  All-left : (xs ys : List Text) → All (Lacks b) (xs ++ ys) → All (Lacks b) xs × All (Lacks b) ys
  All-left [] ys h = (tt, h)
  All-left (x ∷ xs) ys h = let (l, r) = All-left xs ys h.1 in ((h.0, l), r)

  no_column : (n column : Text) → Lacks b n → any_where (has_column_of n column) b.tables ≡ false
  no_column n column h =
      any_where_mono (has_column_of n column) (is_table n) b.tables (λ t e. rw e refl) h.no_table

  no_index_on_column :
      (n column : Text) → Lacks b n → any_where (is_on_column n column) b.indexes ≡ false
  no_index_on_column n column h =
      any_where_mono (is_on_column n column) (is_on n) b.indexes (λ i e. rw e refl) h.no_index_on

  no_key_to :
      (n column : Text)
      → Lacks b n
      → any_where (λ t. refers_to n column t && not (is_table n t)) b.tables ≡ false
  no_key_to n column h =
      any_where_mono (λ t. refers_to n column t && not (is_table n t)) (refers n) b.tables
        (λ t e.
          let none_to =
            any_where_mono
              (λ (k : ForeignKey). text_eq k.referred_table n && text_eq k.referred_column column)
              (λ (k : ForeignKey). text_eq k.referred_table n) t.foreign_keys (λ k f. rw f refl)
              e in
          rw none_to refl)
        h.no_key

  no_other_key :
      (n : Text) → Lacks b n → any_where (λ t. refers n t && not (is_table n t)) b.tables ≡ false
  no_other_key n h =
      any_where_mono (λ t. refers n t && not (is_table n t)) (refers n) b.tables (λ t e. rw e refl)
        h.no_key

  if-beside :
      (x y : Bool) (s t : Schema)
      → x ≡ y
      → s ≡ beside b t
      → (if x then none else some s) ≡ beside_result b (if y then none else some t)
  if-beside x y s t same e = elim (Bool-cases y) [
    | inl f ↦ rw (same, f) refl
    | inr f ↦ rw (same, f) (ap some e)
  ]

  apply-beside :
      (c : Operation) (l : Schema)
      → All (Lacks b) (names_of c)
      → apply c (beside b l) ≡ beside_result b (apply c l)
  unfolding apply
  apply-beside (create_table t) l h =
      let (e, k) = All-left (enum_types t.columns) (referred_tables t.foreign_keys) h.1 in
      if-beside _ _ _ _
        (rw
          (
            has_table-beside l t.name h.0,
            has_index-beside l t.name h.0,
            has_types-beside l (enum_types t.columns) e,
            has_tables-beside l (referred_tables t.foreign_keys) k,
          )
          refl)
        (Schema_path _ _ (append_assoc b.tables l.tables (t ∷ [])) refl
          (append_assoc b.types l.types (enum_types t.columns)))
  apply-beside (drop_table name) l h =
      if-beside _ _ _ _
        (rw
          (
            has_table-beside l name h.0,
            any_table-beside (λ t. refers name t && not (is_table name t)) l
                (no_other_key name h.0),
          )
          refl)
        (Schema_path _ _ (delete_tables-beside (is_table name) l h.0.no_table)
          (delete_indexes-beside (is_on name) l h.0.no_index_on) refl)
  apply-beside (create_index i) l h =
      if-beside _ _ _ _
        (rw
          (
            has_table-beside l i.name h.0,
            has_index-beside l i.name h.0,
            has_table-beside l i.table h.1.0,
          )
          refl)
        (Schema_path _ _ refl (append_assoc b.indexes l.indexes (i ∷ [])) refl)
  apply-beside (drop_index name table) l h =
      if-beside _ _ _ _ (ap not (has_index-beside l name h.0))
        (Schema_path _ _ refl (delete_indexes-beside (is_index name) l h.0.no_index) refl)
  apply-beside (add_column table c) l h =
      if-beside _ _ _ _
        (rw
          (
            has_table-beside l table h.0,
            any_table-beside (has_column_of table c.name) l (no_column table c.name h.0),
          )
          refl)
        (Schema_path _ _
          (update_tables-beside table (λ (t : Table). record t { columns = t.columns ++ c ∷ [] }) l
            h.0)
          refl refl)
  apply-beside (drop_column table column) l h =
      if-beside _ _ _ _
        (rw
          (
            any_table-beside (has_column_of table column) l (no_column table column h.0),
            any_table-beside (λ t. refers_to table column t && not (is_table table t)) l
                (no_key_to table column h.0),
          )
          refl)
        (Schema_path _ _ (update_tables-beside table (without_column column) l h.0)
          (delete_indexes-beside (is_on_column table column) l
            (no_index_on_column table column h.0))
          refl)

  pub run-beside :
      (cs : List Operation) (l : Schema)
      → Apart b cs
      → run cs (beside b l) ≡ beside_result b (run cs l)
  unfolding run
  run-beside [] l h = refl
  run-beside (c ∷ cs) l h = elim (Option-cases (apply c l)) [
    | inl e ↦ rw (run, apply-beside c l h.0, e) refl
    | inr (l', e) ↦ rw (run, apply-beside c l h.0, e) (run-beside cs l' h.1)
  ]
