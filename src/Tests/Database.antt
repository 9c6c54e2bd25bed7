-- ===== src/Tests/Database.antt =====
-- The database writer on the tables of src/storage.
use sensorctl.Prelude.{◌≡◌, refl, true, false, [], ok, raise, runtime_error}
use sensorctl.Prelude.Exec.{pure}
use sensorctl.Storage.Database.{Sqlite, Database, close_database, require_connection, write_batch}
use sensorctl.Storage.Refinement.{KeepsRows, Recorded, database_store, InTables, run-InTables}
use sensorctl.Runtime.Writer.{World, run}
use sensorctl.Runtime.Writer.Flow.{all_submissions}
use sensorctl.Tests.Storage.{stored, empty, room_for}
use sensorctl.Tests.Writer.{start, quick, turns}

abbrev sqlite : Sqlite
sqlite = record {
  upgrade = pure tt;
  connect = pure tt;
  wal_checkpoint = pure tt;
  close_connection = pure tt;
  refuses = room_for 5;
}

sqlite-KeepsRows : KeepsRows sqlite
sqlite-KeepsRows = record {
  upgrade = λ t. refl;
  connect = λ t. refl;
  checkpoint = λ t. refl;
  close = λ t. refl;
}

abbrev file : Database
file = record { connected = false; tables = empty }

needs_open : write_batch sqlite stored [] file ≡ (raise runtime_error "database is not open", file)
unfolding write_batch require_connection
needs_open = refl

closes_twice : close_database sqlite true file ≡ (ok tt, file)
unfolding close_database
closes_twice = refl

abbrev recorded : Recorded sqlite sqlite-KeepsRows stored []
recorded = record {
  database = file;
  journal = [];
  represents = record { rows = []; samples_are = refl; hold = tt; rows_old = refl; old = refl };
}

abbrev world : World (database_store sqlite sqlite-KeepsRows stored [])
world = record { shared = start; db = recorded }

run-InTables_example :
    InTables sqlite sqlite-KeepsRows stored []
      (all_submissions turns)
      (run (database_store sqlite sqlite-KeepsRows stored []) quick 0 turns "z" world)
run-InTables_example =
    run-InTables sqlite sqlite-KeepsRows stored [] quick 0 turns "z" world refl refl refl refl
