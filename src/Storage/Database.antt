-- ===== src/Storage/Database.antt =====
-- src/storage/database.py: the object that holds the connection. What alembic and sqlite3 do to the
-- tables besides the statements of src/storage/repositories is a parameter.
use sensorctl.Prelude.{
  Bool, true, false, Option, List, if◌then◌else◌, Exception, require, runtime_error,
}
use sensorctl.Prelude.Dict.{Dict}
use sensorctl.Prelude.Exec.{Exec, pure, lift, ◌>>◌}
use sensorctl.Model.{Sample, StoredSensor}
use sensorctl.Storage.Samples.{Tables, write_samples}

-- `upgrade_database` and `connect`, `PRAGMA wal_checkpoint(TRUNCATE)`, the close of the connection,
-- and which statements are refused.
pub record Sqlite : Type 0 where
  pub upgrade : Exec Tables (Unit {0})
  pub connect : Exec Tables (Unit {0})
  pub wal_checkpoint : Exec Tables (Unit {0})
  pub close_connection : Exec Tables (Unit {0})
  pub refuses : Tables → Option Exception

-- `self._connection is not None`, and the tables in the file.
pub record Database : Type 0 where
  pub connected : Bool
  pub tables : Tables

module _ (q : Sqlite) where
  abbrev pub on_tables {ℓ} : {A : Type ℓ} → Exec Tables A → Exec Database A
  on_tables m d = let (r, t) = m d.tables in (r, record d { tables = t })

  abbrev pub set_connected : Bool → Exec Database (Unit {0})
  set_connected b d = pure tt (record d { connected = b })

  unfoldable pub open_database : Exec Database (Unit {0})
  open_database = do on_tables q.upgrade; on_tables q.connect; set_connected true

  abbrev pub checkpoint_if : Bool → Exec Database (Unit {0})
  checkpoint_if checkpoint d = if checkpoint then on_tables q.wal_checkpoint d else pure tt d

  unfoldable pub close_database : Bool → Exec Database (Unit {0})
  close_database checkpoint d =
      if d.connected
      then (do checkpoint_if checkpoint; on_tables q.close_connection; set_connected false) d
      else pure tt d

  unfoldable pub require_connection : Exec Database (Unit {0})
  require_connection d = lift (require d.connected runtime_error "database is not open") d

  -- `Database.write_samples`
  unfoldable pub write_batch : Dict StoredSensor → List Sample → Exec Database (Unit {0})
  unfolding require_connection
  write_batch stored samples =
      require_connection >> on_tables (write_samples q.refuses stored samples)
