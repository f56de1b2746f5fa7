-- ===== src/Migrations/Examples.antt =====
-- The versions on a database with two tables of its own, and the theorems at it.
use monitoring_service.Prelude.{◌≡◌, refl, true, false, none, some, [], ◌∷◌}
use monitoring_service.Prelude.Text.{text}
use monitoring_service.Migrations.{
  integer, auto_string, Schema, versions_after, chain, upgrades, downgrades, upgrade_head,
  downgrade_base,
}
use monitoring_service.Migrations.Versions.{column, foreign_key, index, versions}
use monitoring_service.Migrations.Metadata.{metadata, agrees}
use monitoring_service.Migrations.Apart.{Apart, is_apart_sound}
use monitoring_service.Migrations.Frame.{beside}
use monitoring_service.Migrations.Chain.{
  with_type_left, upgrade_head-agrees, downgrade_base-upgrade_head,
}

-- Alembic's own table, and one of another program with a key on it.
abbrev shared : Schema
shared = record {
  tables =
      record {
        name = text "alembic_version";
        columns = column (text "version_num") auto_string false ∷ [];
        primary_key = text "version_num";
        foreign_keys = [];
      }
      ∷ record {
        name = text "audit";
        columns = column (text "id") integer false ∷ column (text "version") auto_string false ∷ [];
        primary_key = text "id";
        foreign_keys = foreign_key (text "version") (text "alembic_version") ∷ [];
      }
      ∷ [];
  indexes = index (text "ix_audit_version") (text "audit") (text "version" ∷ []) false ∷ [];
  types = text "severity" ∷ [];
}

shared_up-Apart : Apart shared (upgrades (chain versions))
unfolding versions_after
shared_up-Apart = is_apart_sound shared (upgrades (chain versions)) refl

shared_down-Apart : Apart shared (downgrades (chain versions))
unfolding versions_after
shared_down-Apart = is_apart_sound shared (downgrades (chain versions)) refl

upgrade_head-agrees_example :
    (l : Schema) × (upgrade_head versions shared ≡ some (beside shared l))
    × (agrees l metadata ≡ true)
upgrade_head-agrees_example = upgrade_head-agrees shared shared_up-Apart

downgrade_base-upgrade_head_example :
    (h : Schema) × (upgrade_head versions shared ≡ some h)
    × (downgrade_base versions h ≡ some (with_type_left shared))
    × (upgrade_head versions (with_type_left shared) ≡ none)
downgrade_base-upgrade_head_example =
    downgrade_base-upgrade_head shared shared_up-Apart shared_down-Apart
