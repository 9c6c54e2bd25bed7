-- ===== src/Tests/Migration.antt =====
-- src/storage/migration.py on a new file and on one of the first version.
use sensorctl.Prelude.{◌≡◌, refl, true, false, none, some, [], ◌∷◌, ok, str_eq, if◌then◌else◌}
use sensorctl.Prelude.Dict.{lookup, insert, has, mem}
use sensorctl.Prelude.Exec.{Exec, pure, ◌>>◌}
use sensorctl.Storage.Migration.{
  Schema, base, head, check_tables, legacy_revision, validate_current_schema, without,
  without_table, remove_legacy_version_table,
}
use sensorctl.Storage.Migration.Upgrade.{
  Connection, Engine, on_schema, upgrade_database, upgrade_connection, complete_upgrade,
}
use sensorctl.Storage.Migration.Versions.{moved, upgrade_0001, upgrade_0002, downgrade_0001}
use sensorctl.Storage.Migration.Current.{
  LegacyEnd, DisposeEnd, legacy_revision-LegacyEnd, upgrade_database-UpgradeEnd,
}

abbrev set_revision : Exec Schema (Unit {0})
set_revision s = pure tt (record s {
  tables = insert "alembic_version" ("version_num" ∷ []) s.tables;
  revision = some head;
})

abbrev engine : Engine
engine = record {
  create = pure tt;
  connect = pure tt;
  stamp = λ revision. on_schema (λ s. pure tt (record s { revision = some revision }));
  upgrade = on_schema λ s. elim s.revision [
    | none ↦ (upgrade_0001 >> (upgrade_0002 >> set_revision)) s
    | some r ↦ if str_eq r base then (upgrade_0002 >> set_revision) s else set_revision s
  ];
  refuse_commit = λ c. none;
}

abbrev new_file : Schema
new_file = record { tables = []; indexes = []; version = none; revision = none; violations = [] }

abbrev connection : Schema → Connection
connection s = record { schema = s; in_file = s; foreign_keys = true; disposed = false }

opened : Unit {0}
unfolding upgrade_database upgrade_connection complete_upgrade remove_legacy_version_table
    without_table without validate_current_schema legacy_revision check_tables upgrade_0001
    upgrade_0002 moved downgrade_0001 lookup insert has mem
opened = tt

abbrev first_version : Schema
first_version = (upgrade_0001 new_file).1

upgrades_new : (upgrade_database engine (connection new_file)).0 ≡ ok tt
unfolding opened
upgrades_new = refl

stamps_first : legacy_revision first_version ≡ ok (some base)
unfolding opened
stamps_first = refl

upgrades_first : (upgrade_database engine (connection first_version)).0 ≡ ok tt
unfolding opened
upgrades_first = refl

takes_back : (downgrade_0001 first_version).1.tables ≡ []
unfolding opened
takes_back = refl

legacy_revision-LegacyEnd_example : LegacyEnd first_version (legacy_revision first_version)
legacy_revision-LegacyEnd_example = legacy_revision-LegacyEnd first_version

upgrade_database-UpgradeEnd_example :
    DisposeEnd engine
      (connection first_version)
      (upgrade_database engine (connection first_version))
upgrade_database-UpgradeEnd_example = upgrade_database-UpgradeEnd engine (connection first_version)
