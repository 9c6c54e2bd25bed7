-- ===== src/Storage/Migration/Dropped.antt =====
-- `_validate_current_schema` and `_remove_legacy_version_table` of src/storage/migration.py: what the check
-- finds stays when the table of the old versions is dropped.
use sensorctl.Prelude.{
  ◌≡◌, refl, ap, ◌∙◌, inl, inr, arith, String, true, false, some, List, [], ◌∷◌, is_empty, str_eq,
  eq_iff, Option-cases, if-cases, Result, ok, err, require-eq-ok, require, runtime_error,
}
use sensorctl.Prelude.{◌>>◌ as ◌>>>◌, >>-eq-ok as >>>-eq-ok}
use sensorctl.Prelude.Dict.{Dict, lookup, has}
use sensorctl.Storage.Migration.{
  Schema, instance_columns, sample_columns, field_columns, measurement_columns, check_tables,
  current_columns, missing_table, unknown_schema, has_sample_index, validate_current_schema,
  without, without_table, drop_table, remove_legacy_version_table,
}
use sensorctl.Storage.Migration.Checks.{HasTable, Conforms, check_tables-Conforms}

-- A database of the current version, as far as the check looks.
pub record IsCurrent (s : Schema) : Type 0 where
  pub tables : Conforms s current_columns
  pub index : has_sample_index s ≡ true
  pub no_violations : is_empty s.violations ≡ true

pub validate-IsCurrent : (s : Schema) → validate_current_schema s ≡ ok tt → IsCurrent s
unfolding validate_current_schema
validate-IsCurrent s h =
    let index =
      require (has_sample_index s) runtime_error
        "database is missing index sample_sensor_time_idx" in
    let keys =
      require (is_empty s.violations) runtime_error "database contains foreign key violations" in
    let (first, more) =
      >>>-eq-ok (check_tables missing_table unknown_schema s current_columns) (index >>> keys) h in
    let (second, third) = >>>-eq-ok index keys more in
    record {
      tables = check_tables-Conforms missing_table unknown_schema s current_columns first;
      index = require-eq-ok (has_sample_index s) runtime_error _ second;
      no_violations = require-eq-ok (is_empty s.violations) runtime_error _ third;
    }

lookup-without :
    {V : Type 0} (k j : String) (d : Dict V)
    → str_eq k j ≡ false
    → lookup j (without k d) ≡ lookup j d
unfolding lookup without
lookup-without k j [] h = refl
lookup-without k j ((i, v) ∷ d) h =
    ground (arith, h, eq_iff i k, eq_iff i j, eq_iff k j, lookup-without k j d h)

has-without : {V : Type 0} (k : String) (d : Dict V) → has k (without k d) ≡ false
unfolding has lookup without
has-without k [] = refl
has-without k ((i, v) ∷ d) = ground (arith, has-without k d)

index_kept :
    (k t on : String) (d : Dict String)
    → str_eq on t ≡ false
    → lookup k d ≡ some on
    → lookup k (without_table t d) ≡ some on
unfolding lookup without_table
index_kept k t on [] h e = cc
index_kept k t on ((i, v) ∷ d) h e = ground (arith, h, e, eq_iff i k, index_kept k t on d h)

-- The schema without the table of the old versions.
abbrev without_versions : Schema → Schema
without_versions s = record s {
  tables = without "schema_version" s.tables;
  indexes = without_table "schema_version" s.indexes;
}

without_versions-HasTable :
    (s : Schema) (p : String × List String)
    → str_eq "schema_version" p.0 ≡ false
    → HasTable s p
    → HasTable (without_versions s) p
without_versions-HasTable s p other (actual, found, fits) =
    (actual, lookup-without "schema_version" p.0 s.tables other ∙ found, fits)

without_versions-index :
    (s : Schema) → has_sample_index s ≡ true → has_sample_index (without_versions s) ≡ true
without_versions-index s h = elim (Option-cases (lookup "sample_sensor_time_idx" s.indexes)) [
  | inl absent ↦ ground (arith, h, absent)
  | inr (on, found) ↦
      let same : str_eq on "sample" ≡ true = ground (arith, h, found) in
      let other : str_eq on "schema_version" ≡ false =
        ap (λ t. str_eq t "schema_version") ((eq_iff on "sample").0 same) in
      ground
        (arith, same, index_kept "sample_sensor_time_idx" "schema_version" on s.indexes other found)
]

without_versions-IsCurrent : (s : Schema) → IsCurrent s → IsCurrent (without_versions s)
without_versions-IsCurrent s c = record {
  tables = (
    without_versions-HasTable s ("sensor_instance", instance_columns) refl c.tables.0,
    (
      without_versions-HasTable s ("sample", sample_columns) refl c.tables.1.0,
      (
        without_versions-HasTable s ("field", field_columns) refl c.tables.1.1.0,
        (
          without_versions-HasTable s ("measurement", measurement_columns) refl c.tables.1.1.1.0,
          tt,
        ),
      ),
    ),
  );
  index = without_versions-index s c.index;
  no_violations = c.no_violations;
}

-- The database is current, and the table of the old versions is gone.
abbrev pub UpgradeEnd : Result (Unit {0}) × Schema → Type 0
UpgradeEnd (ok u, t) = IsCurrent t × (has "schema_version" t.tables ≡ false)
UpgradeEnd (err e, t) = Unit

pub removed-UpgradeEnd : (s : Schema) → IsCurrent s → UpgradeEnd (remove_legacy_version_table s)
unfolding remove_legacy_version_table
removed-UpgradeEnd s c =
    let there = has "schema_version" s.tables in
    if-cases UpgradeEnd there (drop_table "schema_version" s) (ok tt, s)
      (λ _.
        if-cases UpgradeEnd there (ok tt, without_versions s) _
          (λ _. (without_versions-IsCurrent s c, has-without "schema_version" s.tables)) (λ _. tt))
      (λ absent. (c, absent))
