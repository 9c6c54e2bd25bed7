-- ===== src/Storage/Migration.antt =====
-- src/storage/migration.py: the schema of the database, as its tables with their columns and its
-- indexes with their tables. What alembic does is a parameter.
pub mod Versions
pub mod Checks
pub mod Upgrade
pub mod Dropped
pub mod Current
pub mod Legacy
pub mod Inserts
pub mod Kept
pub mod Converted
use sensorctl.Prelude.{
  ℕ, String, Bool, true, false, not, ◌||◌, ◌==◌, Option, none, some, List, [], ◌∷◌, all, str_eq,
  if◌then◌else◌, is_empty, ◌<>◌, Exception, Result, ok, err, raise, require, forbid, or_raise,
  runtime_error, operational_error,
}
use sensorctl.Prelude.{◌>>=◌ as ◌>>>=◌, ◌>>◌ as ◌>>>◌}
use sensorctl.Prelude.Dict.{Dict, lookup, has, mem}
use sensorctl.Prelude.Exec.{Exec, pure, lift, ◌>>=◌, ◌>>◌}

-- `version` is the row of the table `schema_version`, if there is one; `violations` are the rows that
-- `PRAGMA foreign_key_check` gives.
pub record Schema : Type 0 where
  pub tables : Dict (List String)
  pub indexes : Dict String
  pub version : Option ℕ
  pub revision : Option String
  pub violations : List String

abbrev pub head : String
head = "0002"

abbrev pub base : String
base = "0001"

abbrev pub field_columns : List String
field_columns = "id" ∷ "sensor_instance_id" ∷ "name" ∷ "unit" ∷ []

abbrev pub measurement_columns : List String
measurement_columns = "sample_id" ∷ "field_id" ∷ "value" ∷ []

abbrev pub legacy_instance_columns : List String
legacy_instance_columns =
    "id" ∷ "logical_id" ∷ "driver" ∷ "bus_id" ∷ "location" ∷ "config_fingerprint" ∷ "created_at_ns"
    ∷ []

abbrev pub legacy_sample_columns : List String
legacy_sample_columns =
    "id" ∷ "sensor_instance_id" ∷ "wall_time_ns" ∷ "monotonic_ns" ∷ "boot_id" ∷ []

abbrev pub instance_columns : List String
instance_columns =
    "id" ∷ "logical_id" ∷ "driver" ∷ "bus_id" ∷ "location" ∷ "config_fingerprint" ∷ "created_at"
    ∷ []

abbrev pub sample_columns : List String
sample_columns = "id" ∷ "sensor_instance_id" ∷ "time" ∷ "monotonic_ms" ∷ "boot_id" ∷ []

-- `_LEGACY_V1_COLUMNS`
abbrev pub legacy_columns : Dict (List String)
legacy_columns =
    ("sensor_instance", legacy_instance_columns)
    ∷ ("sample", legacy_sample_columns)
    ∷ ("field", field_columns)
    ∷ ("measurement", measurement_columns)
    ∷ []

-- `_CURRENT_COLUMNS`
abbrev pub current_columns : Dict (List String)
current_columns =
    ("sensor_instance", instance_columns)
    ∷ ("sample", sample_columns)
    ∷ ("field", field_columns)
    ∷ ("measurement", measurement_columns)
    ∷ []

-- `columns <= actual`
abbrev pub includes : List String → List String → Bool
includes actual columns = all (λ c. mem c actual) columns

-- The loops over the expected tables: the texts of their two errors are arguments.
abbrev pub check_table :
    (String → String) → (String → String) → Schema → String → List String → Result (Unit {0})
check_table missing unknown s table columns =
    or_raise (lookup table s.tables) runtime_error (missing table) >>>= λ actual.
    require (includes actual columns) runtime_error (unknown table)

unfoldable pub check_tables :
    (String → String) → (String → String) → Schema → Dict (List String) → Result (Unit {0})
check_tables missing unknown s [] = ok tt
check_tables missing unknown s ((table, columns) ∷ expected) =
    let rest = check_tables missing unknown s expected in
    check_table missing unknown s table columns >>> rest

abbrev pub legacy_missing : String → String
legacy_missing table = "legacy database is missing table " <> table

abbrev pub legacy_unknown : String → String
legacy_unknown table = "legacy database table " <> (table <> " has an unknown schema")

abbrev pub missing_table : String → String
missing_table table = "database is missing table " <> table

abbrev pub unknown_schema : String → String
unknown_schema table = "database table " <> (table <> " has an unknown schema")

-- The columns and the revision of a legacy version.
abbrev pub legacy_version : Option ℕ → Result (Dict (List String) × String)
legacy_version none = raise runtime_error "unsupported legacy database schema version"
legacy_version (some v) =
    if v == 1
    then ok (legacy_columns, base)
    else if v == 2
    then ok (current_columns, head)
    else raise runtime_error "unsupported legacy database schema version"

-- `_legacy_revision`
unfoldable pub legacy_revision : Schema → Result (Option String)
legacy_revision s =
    if has "alembic_version" s.tables || not (has "schema_version" s.tables)
    then ok none
    else (legacy_version s.version >>>= λ expected.
        check_tables legacy_missing legacy_unknown s expected.0 >>> ok (some expected.1))

-- `index["name"]` of `inspector.get_indexes("sample")`
abbrev pub has_sample_index : Schema → Bool
has_sample_index s = elim (lookup "sample_sensor_time_idx" s.indexes) [
  | none ↦ false
  | some table ↦ str_eq table "sample"
]

-- `_validate_current_schema`
unfoldable pub validate_current_schema : Schema → Result (Unit {0})
validate_current_schema s =
    check_tables missing_table unknown_schema s current_columns
    >>> (require (has_sample_index s) runtime_error
          "database is missing index sample_sensor_time_idx"
        >>> require (is_empty s.violations) runtime_error
            "database contains foreign key violations")

unfoldable pub without {ℓ} : {V : Type ℓ} → String → Dict V → Dict V
without k [] = []
without k ((j, v) ∷ d) = let rest = without k d in if str_eq j k then rest else (j, v) ∷ rest

-- `DROP TABLE`, with the indexes of the table.
unfoldable pub without_table : String → Dict String → Dict String
without_table table [] = []
without_table table ((name, on) ∷ d) =
    let rest = without_table table d in if str_eq on table then rest else (name, on) ∷ rest

abbrev pub drop_table : String → Exec Schema (Unit {0})
drop_table table s =
    if has table s.tables
    then pure tt
        (record s { tables = without table s.tables; indexes = without_table table s.indexes })
    else (raise operational_error ("no such table: " <> table), s)

-- `_remove_legacy_version_table`
unfoldable pub remove_legacy_version_table : Exec Schema (Unit {0})
remove_legacy_version_table s =
    if has "schema_version" s.tables then drop_table "schema_version" s else pure tt s
