-- ===== src/Migrations/Chain.antt =====
-- alembic/versions: the whole chain, upwards and downwards, beside what else is in the database.
use mathlib.Core.List.{append-nil}
use monitoring_service.Prelude.{◌≡◌, ◌∙◌, sym, ap, refl, true, none, some, [], ◌∷◌, ◌++◌}
use monitoring_service.Prelude.Text.{text}
use monitoring_service.Migrations.{
  Schema, apply, run, versions_after, chain, upgrades, downgrades, upgrade_head, downgrade_base,
}
use monitoring_service.Migrations.Versions.{versions}
use monitoring_service.Migrations.Metadata.{metadata, agrees}
use monitoring_service.Migrations.Apart.{Apart}
use monitoring_service.Migrations.Frame.{beside, beside_result, Schema_path, run-beside}

abbrev nothing : Schema
nothing = record { tables = []; indexes = []; types = [] }

-- The database with the type that the downgrade of b794db3040c8 leaves.
abbrev pub with_type_left : Schema → Schema
with_type_left b = record b { types = b.types ++ text "alertchannel" ∷ [] }

abbrev left : Schema
left = record nothing { types = text "alertchannel" ∷ [] }

run-upgrades :
    (l : Schema) × (run (upgrades (chain versions)) nothing ≡ some l)
    × (agrees l metadata ≡ true)
    × (run (downgrades (chain versions)) l ≡ some left)
    × (run (upgrades (chain versions)) left ≡ none)
unfolding run apply versions_after
run-upgrades = (_, refl, refl, refl, refl)

beside-nothing : (b : Schema) → beside b nothing ≡ b
beside-nothing b = Schema_path _ _ (append-nil b.tables) (append-nil b.indexes) (append-nil b.types)

beside-left : (b : Schema) → beside b left ≡ with_type_left b
beside-left b = Schema_path _ _ (append-nil b.tables) (append-nil b.indexes) refl

module _ (b : Schema) (apart_up : Apart b (upgrades (chain versions))) where
  upgrade-beside :
      (l : Schema)
      → upgrade_head versions (beside b l) ≡ beside_result b (run (upgrades (chain versions)) l)
  unfolding upgrade_head
  upgrade-beside l = run-beside b (upgrades (chain versions)) l apart_up

  -- On a database that has nothing of the versions' names, whatever else it has, the versions run in
  -- the order of their chain without an error, leave the rest as it was, and add the tables, indexes
  -- and types that app/models.py declares.
  pub upgrade_head-agrees :
      (l : Schema) × (upgrade_head versions b ≡ some (beside b l)) × (agrees l metadata ≡ true)
  upgrade_head-agrees =
      let (l, made, same, _, _) = run-upgrades in
      (
        l,
        ap (upgrade_head versions) (sym (beside-nothing b))
            ∙ upgrade-beside nothing
            ∙ ap (beside_result b) made,
        same,
      )

  -- On a database that has nothing of the versions' names, the downgrade after the upgrade runs
  -- without an error and gives the database back, but for the type alertchannel, which it leaves; a
  -- second upgrade then fails.
  pub downgrade_base-upgrade_head :
      Apart b (downgrades (chain versions))
      → (h : Schema) × (upgrade_head versions b ≡ some h)
        × (downgrade_base versions h ≡ some (with_type_left b))
        × (upgrade_head versions (with_type_left b) ≡ none)
  unfolding downgrade_base
  downgrade_base-upgrade_head apart_down =
      let (l, made, _, undone, stuck) = run-upgrades in
      (
        beside b l,
        ap (upgrade_head versions) (sym (beside-nothing b))
            ∙ upgrade-beside nothing
            ∙ ap (beside_result b) made,
        run-beside b (downgrades (chain versions)) l apart_down
            ∙ ap (beside_result b) undone
            ∙ ap some (beside-left b),
        ap (upgrade_head versions) (sym (beside-left b))
            ∙ upgrade-beside left
            ∙ ap (beside_result b) stuck,
      )
