-- ===== src/Storage/Migration/Versions.antt =====
-- `upgrade` of the two files in src/storage/migrations/versions, on the schema. The rows that
-- the second converts are in Storage.Migration.Legacy.
use sensorctl.Prelude.{
  ℕ, String, none, some, List, [], ◌∷◌, ◌==◌, length, str_eq, if◌then◌else◌, ◌<>◌, raise, require,
  or_raise, operational_error, runtime_error,
}
use sensorctl.Prelude.{◌>>=◌ as ◌>>>=◌}
use sensorctl.Prelude.Dict.{Dict, lookup, insert, has}
use sensorctl.Prelude.Exec.{Exec, pure, lift, ◌>>◌}
use sensorctl.Storage.Migration.{
  Schema, legacy_instance_columns, legacy_sample_columns, instance_columns, sample_columns,
  field_columns, measurement_columns, includes, without, drop_table,
}

abbrev pub create_table : String → List String → Exec Schema (Unit {0})
create_table table columns s =
    if has table s.tables
    then (raise operational_error ("table " <> (table <> " already exists")), s)
    else pure tt (record s { tables = insert table columns s.tables })

abbrev pub create_index : String → String → Exec Schema (Unit {0})
create_index name table s =
    if has name s.indexes
    then (raise operational_error ("index " <> (name <> " already exists")), s)
    else pure tt (record s { indexes = insert name table s.indexes })

abbrev pub drop_index : String → Exec Schema (Unit {0})
drop_index name s =
    if has name s.indexes
    then pure tt (record s { indexes = without name s.indexes })
    else (raise operational_error ("no such index: " <> name), s)

unfoldable pub moved : String → String → Dict String → Dict String
moved old new [] = []
moved old new ((name, on) ∷ d) =
    let rest = moved old new d in (name, if str_eq on old then new else on) ∷ rest

-- `ALTER TABLE old RENAME TO new`: its indexes go with it.
abbrev pub rename_table : String → String → Exec Schema (Unit {0})
rename_table old new s = elim (lookup old s.tables) [
  | none ↦ (raise operational_error ("no such table: " <> old), s)
  | some columns ↦
      if has new s.tables
      then (raise operational_error ("there is already another table " <> new), s)
      else pure tt (record s {
        tables = insert new columns (without old s.tables);
        indexes = moved old new s.indexes;
      })
]

-- `INSERT INTO ... SELECT columns FROM table`, and with `SELECT *` for so many columns.
abbrev pub copy_columns : String → List String → Exec Schema (Unit {0})
copy_columns table columns s = (
  or_raise (lookup table s.tables) operational_error ("no such table: " <> table) >>>= λ actual.
      require (includes actual columns) operational_error "no such column",
  s,
)

abbrev pub copy_all : String → ℕ → Exec Schema (Unit {0})
copy_all table n s = (
  or_raise (lookup table s.tables) operational_error ("no such table: " <> table) >>>= λ actual.
      require (length actual == n) operational_error "table has another number of columns",
  s,
)

abbrev insert_version : ℕ → Exec Schema (Unit {0})
insert_version n s = pure tt (record s { version = some n })

-- 0001
unfoldable pub upgrade_0001 : Exec Schema (Unit {0})
upgrade_0001 = do
  create_table "schema_version" ("version" ∷ [])
  insert_version 1
  create_table "sensor_instance" legacy_instance_columns
  create_table "field" field_columns
  create_table "sample" legacy_sample_columns
  create_index "sample_sensor_time_idx" "sample"
  create_table "measurement" measurement_columns

-- 0002
unfoldable pub upgrade_0002 : Exec Schema (Unit {0})
unfolding moved without
upgrade_0002 = do
  rename_table "measurement" "measurement_v1"
  rename_table "field" "field_v1"
  rename_table "sample" "sample_v1"
  rename_table "sensor_instance" "sensor_instance_v1"
  drop_index "sample_sensor_time_idx"
  create_table "sensor_instance" instance_columns
  copy_columns "sensor_instance_v1" legacy_instance_columns
  create_table "field" field_columns
  copy_all "field_v1" 4
  create_table "sample" sample_columns
  copy_columns "sample_v1" legacy_sample_columns
  create_table "measurement" measurement_columns
  copy_all "measurement_v1" 3
  drop_table "measurement_v1"
  drop_table "sample_v1"
  drop_table "field_v1"
  drop_table "sensor_instance_v1"
  drop_table "schema_version"
  create_index "sample_sensor_time_idx" "sample"

-- `downgrade` of 0001, and of 0002.
unfoldable pub downgrade_0001 : Exec Schema (Unit {0})
downgrade_0001 = do
  drop_table "measurement"
  drop_index "sample_sensor_time_idx"
  drop_table "sample"
  drop_table "field"
  drop_table "sensor_instance"
  drop_table "schema_version"

unfoldable pub downgrade_0002 : Exec Schema (Unit {0})
downgrade_0002 = lift (raise runtime_error "timestamp data migration cannot be downgraded safely")
