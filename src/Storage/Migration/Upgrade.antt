-- ===== src/Storage/Migration/Upgrade.antt =====
-- `upgrade_database` of src/storage/migration.py: the upgrade on one connection, with its commits and its
-- end. The pragma is set outside a transaction, where SQLite heeds it.
use sensorctl.Prelude.{String, Bool, true, false, Option, none, some, Exception, Result, err}
use sensorctl.Prelude.Exec.{Exec, pure, ◌>>=◌, ◌>>◌}
use sensorctl.Storage.Migration.{
  Schema, legacy_revision, validate_current_schema, remove_legacy_version_table,
}

-- The schema that the connection sees and the one in the file, the pragma `foreign_keys`, and whether
-- the engine was disposed of.
pub record Connection : Type 0 where
  pub schema : Schema
  pub in_file : Schema
  pub foreign_keys : Bool
  pub disposed : Bool

-- What pathlib, sqlalchemy and alembic do: `mkdir` with `create_engine`, `connect`, `command.stamp`, `command.upgrade` up to the head, and which commits are refused.
pub record Engine : Type 0 where
  pub create : Exec Connection (Unit {0})
  pub connect : Exec Connection (Unit {0})
  pub stamp : String → Exec Connection (Unit {0})
  pub upgrade : Exec Connection (Unit {0})
  pub refuse_commit : Connection → Option Exception

abbrev pub on_schema {ℓ} : {A : Type ℓ} → Exec Schema A → Exec Connection A
on_schema m c = let (r, s) = m c.schema in (r, record c { schema = s })

abbrev pub observe {ℓ} : {A : Type ℓ} → (Schema → Result A) → Exec Connection A
observe look c = (look c.schema, c)

abbrev pub set_foreign_keys : Bool → Exec Connection (Unit {0})
set_foreign_keys b c = pure tt (record c { foreign_keys = b })

abbrev pub commit_unless : Option Exception → Exec Connection (Unit {0})
commit_unless none c = pure tt (record c { in_file = c.schema })
commit_unless (some e) c = (err e, c)

module _ (g : Engine) where
  abbrev pub commit_schema : Exec Connection (Unit {0})
  commit_schema c = commit_unless (g.refuse_commit c) c

  abbrev pub stamp_if : Option String → Exec Connection (Unit {0})
  stamp_if none = pure tt
  stamp_if (some revision) = g.stamp revision >> commit_schema

  -- From the check of the new schema on.
  unfoldable pub complete_upgrade : Exec Connection (Unit {0})
  complete_upgrade = do
    observe validate_current_schema
    on_schema remove_legacy_version_table
    commit_schema
    set_foreign_keys true
    commit_schema

  -- The body of the `try`.
  unfoldable pub upgrade_connection : Exec Connection (Unit {0})
  unfolding complete_upgrade
  upgrade_connection = do
    g.connect
    set_foreign_keys false
    revision ← observe legacy_revision
    stamp_if revision
    g.upgrade
    complete_upgrade

-- The end of the `with`, if there is a connection, and the `finally`: what is not committed is rolled
-- back.
abbrev pub dispose {ℓ} : {A : Type ℓ} → Result A × Connection → Result A × Connection
dispose (r, c) = (r, record c { schema = c.in_file; disposed = true })

unfoldable pub upgrade_database : Engine → Exec Connection (Unit {0})
unfolding upgrade_connection
upgrade_database g = g.create >> λ c. dispose (upgrade_connection g c)
