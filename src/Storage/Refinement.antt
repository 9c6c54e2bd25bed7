-- ===== src/Storage/Refinement.antt =====
-- The database of src/storage/database.py as the store of src/runtime/writer.py.
use sensorctl.Prelude.{
  ℕ, ◌≡◌, refl, sym, ap, subst, ◌∙◌, String, Bool, true, false, List, [], ◌++◌, map, some, length,
  Result, ok, err, if-cases,
}
use sensorctl.Prelude.Subseq.{Subseq}
use sensorctl.Prelude.Dict.{Dict}
use sensorctl.Prelude.Exec.{Exec, ◌>>◌, >>=-cases}
use sensorctl.Model.{Sample, StoredSensor}
use sensorctl.Storage.Samples.{SampleRow, Tables, write_samples}
use sensorctl.Storage.Database.{
  Sqlite, Database, on_tables, set_connected, open_database, checkpoint_if, close_database,
  require_connection, write_batch,
}
use sensorctl.Storage.Journal.{Represents, WriteEnd, write_samples-WriteEnd}
use sensorctl.Runtime.Store.{SampleStore, IsTransactional}
use sensorctl.Runtime.Writer.{
  Turn, WriterConfig, World, WriterEnd, unfinished, finished, failed, run,
}
use sensorctl.Runtime.Writer.Delivery.{Stored}
use sensorctl.Runtime.Writer.Flow.{all_submissions}
use sensorctl.Runtime.Writer.Run.{RunEnds, run-RunEnds}

-- What alembic and sqlite3 do besides the statements leaves the rows of the samples alone, on a file
-- that has the current schema.
pub record KeepsRows (q : Sqlite) : Type 0 where
  pub upgrade : (t : Tables) → (q.upgrade t).1 ≡ t
  pub connect : (t : Tables) → (q.connect t).1 ≡ t
  pub checkpoint : (t : Tables) → (q.wal_checkpoint t).1 ≡ t
  pub close : (t : Tables) → (q.close_connection t).1 ≡ t

module _ (q : Sqlite) (keeps : KeepsRows q) where
  pub open_database-tables : (d : Database) → (open_database q d).1.tables ≡ d.tables
  unfolding open_database
  open_database-tables d =
      >>=-cases (λ r. r.1.tables ≡ d.tables) (on_tables q q.upgrade)
        (λ _. on_tables q q.connect >> set_connected q true) d
        (λ _ _.
          >>=-cases (λ r. r.1.tables ≡ d.tables) (on_tables q q.connect) (λ _. set_connected q true)
            (on_tables q q.upgrade d).1 (λ _ _. keeps.connect _ ∙ keeps.upgrade d.tables)
            (λ _ _. keeps.connect _ ∙ keeps.upgrade d.tables))
        (λ _ _. keeps.upgrade d.tables)

  checkpoint_if-tables : (b : Bool) (d : Database) → (checkpoint_if q b d).1.tables ≡ d.tables
  checkpoint_if-tables true d = keeps.checkpoint d.tables
  checkpoint_if-tables false d = refl

  pub close_database-tables :
      (checkpoint : Bool) (d : Database) → (close_database q checkpoint d).1.tables ≡ d.tables
  unfolding close_database
  close_database-tables checkpoint d =
      let T = λ (r : Result (Unit {0}) × Database). r.1.tables ≡ d.tables in
      let closing = on_tables q q.close_connection >> set_connected q false in
      if-cases T d.connected ((checkpoint_if q checkpoint >> closing) d) (ok tt, d)
        (λ _.
          >>=-cases T (checkpoint_if q checkpoint) (λ _. closing) d
            (λ _ _.
              >>=-cases T (on_tables q q.close_connection) (λ _. set_connected q false)
                (checkpoint_if q checkpoint d).1
                (λ _ _. keeps.close _ ∙ checkpoint_if-tables checkpoint d)
                (λ _ _. keeps.close _ ∙ checkpoint_if-tables checkpoint d))
            (λ _ _. checkpoint_if-tables checkpoint d))
        (λ _. refl)

  module _ (stored : Dict StoredSensor) (start : List SampleRow) where
    -- The database with the journal of what was written to it.
    pub record Recorded : Type 0 where
      pub database : Database
      pub journal : List Sample
      pub represents : Represents stored start journal database.tables

    abbrev pub BatchEnd : List Sample → List Sample → Result (Unit {0}) × Database → Type 0
    BatchEnd journal samples (ok u, d) = Represents stored start (journal ++ samples) d.tables
    BatchEnd journal samples (err e, d) = Represents stored start journal d.tables

    on_tables-BatchEnd :
        (journal samples : List Sample) (connected : Bool) (r : Result (Unit {0}) × Tables)
        → WriteEnd q.refuses stored start journal samples r
        → BatchEnd journal samples (r.0, record { connected = connected; tables = r.1 })
    on_tables-BatchEnd journal samples connected (ok u, t) v = v
    on_tables-BatchEnd journal samples connected (err e, t) v = v

    pub write_batch-BatchEnd :
        (journal samples : List Sample) (d : Database)
        → Represents stored start journal d.tables
        → BatchEnd journal samples (write_batch q stored samples d)
    unfolding write_batch require_connection
    write_batch-BatchEnd journal samples d v =
        >>=-cases (BatchEnd journal samples) (require_connection q)
          (λ _. on_tables q (write_samples q.refuses stored samples)) d
          (λ _ _.
            on_tables-BatchEnd journal samples d.connected _
              (write_samples-WriteEnd q.refuses stored start journal samples d.tables v))
          (λ e _. v)

    abbrev pub with_journal : List Sample → List Sample → Result (Unit {0}) → List Sample
    with_journal journal samples (ok u) = journal ++ samples
    with_journal journal samples (err e) = journal

    pub written :
        (journal samples : List Sample) (r : Result (Unit {0})) (d : Database)
        → BatchEnd journal samples (r, d)
        → Represents stored start (with_journal journal samples r) d.tables
    written journal samples (ok u) d v = v
    written journal samples (err e) d v = v

    abbrev pub open_recorded : Exec Recorded (Unit {0})
    open_recorded r =
        let d = open_database q r.database in
        (
          d.0,
          record {
            database = d.1;
            journal = r.journal;
            represents =
                subst (Represents stored start r.journal) (sym (open_database-tables r.database))
                  r.represents;
          },
        )

    abbrev pub close_recorded : Bool → Exec Recorded (Unit {0})
    close_recorded checkpoint r =
        let d = close_database q checkpoint r.database in
        (
          d.0,
          record {
            database = d.1;
            journal = r.journal;
            represents =
                subst (Represents stored start r.journal)
                  (sym (close_database-tables checkpoint r.database)) r.represents;
          },
        )

    abbrev pub write_recorded : List Sample → Exec Recorded (Unit {0})
    write_recorded samples r =
        let d = write_batch q stored samples r.database in
        (
          d.0,
          record {
            database = d.1;
            journal = with_journal r.journal samples d.0;
            represents =
                written r.journal samples d.0 d.1
                  (write_batch-BatchEnd r.journal samples r.database r.represents);
          },
        )

    abbrev pub database_store : SampleStore
    database_store = record {
      State = Recorded;
      open_store = open_recorded;
      close_store = close_recorded;
      write = write_recorded;
      contents = λ r. r.journal;
    }

    -- The database keeps the promises of the store.
    pub database_store-IsTransactional : IsTransactional database_store
    database_store-IsTransactional = record {
      write_ok = λ samples r h. ap (with_journal r.journal samples) h;
      write_err = λ samples r e h. ap (with_journal r.journal samples) h;
      open_keeps = λ r. refl;
      close_keeps = λ checkpoint r. refl;
    }

    -- The tables hold a front part of a subsequence of the submitted samples, which has as many as the
    -- queue accepted and ends with those still queued.
    abbrev pub FrontInTables : List Sample → World database_store → Type 0
    FrontInTables submitted w =
        (journal taken queued : List Sample) × Subseq (journal ++ (taken ++ queued)) submitted
        × (w.shared.stats.accepted_count ≡ length (journal ++ (taken ++ queued)))
        × (w.shared.queue.items ≡ map some queued)
        × Represents stored start journal w.db.database.tables

    -- All of it when the writer finished, and as many as are counted as committed.
    abbrev pub InTables : List Sample → WriterEnd database_store × World database_store → Type 0
    InTables submitted (finished, w) =
        (journal : List Sample) × Subseq journal submitted
        × Represents stored start journal w.db.database.tables
        × (w.shared.stats.accepted_count ≡ length journal)
        × (w.shared.stats.committed_count ≡ length journal)
    InTables submitted (_, w) = FrontInTables submitted w

    Stored-InTables :
        (submitted : List Sample) (w : World database_store)
        → Stored database_store database_store-IsTransactional [] submitted w
        → FrontInTables submitted w
    Stored-InTables submitted w v = (
      v.written,
      v.taken,
      v.queued,
      subst (λ j. Subseq j submitted) (sym v.front) v.admitted,
      v.counted ∙ ap length (sym v.front),
      v.items,
      subst (λ j. Represents stored start j w.db.database.tables) v.stored w.db.represents,
    )

    RunEnds-InTables :
        (submitted : List Sample) (r : WriterEnd database_store × World database_store)
        → RunEnds database_store database_store-IsTransactional [] submitted r
        → InTables submitted r
    RunEnds-InTables submitted (unfinished, w) v = Stored-InTables submitted w v
    RunEnds-InTables submitted (finished, w) v = (
      v.journal,
      v.admitted,
      subst (λ j. Represents stored start j w.db.database.tables) v.stored w.db.represents,
      v.accepted,
      v.committed,
    )
    RunEnds-InTables submitted (failed e, w) v = Stored-InTables submitted w v.0

    -- The writer on the database of the program. Whatever the other threads do and however it ends, the
    -- submitted samples have a subsequence with as many samples as the queue accepted, which ends with
    -- those still queued, and beyond the rows that were there the tables hold one row with its
    -- measurements for each sample of a front part of it, in its order; when it finishes they hold all
    -- of it, and as many are counted as committed. Alembic and sqlite3 keep the rows, and the queue and
    -- both totals are at their start.
    pub run-InTables :
        (c : WriterConfig) (started : ℕ) (turns : List Turn) (last : String)
        (w : World database_store)
        → w.db.journal ≡ []
        → w.shared.queue.items ≡ []
        → w.shared.stats.accepted_count ≡ 0
        → w.shared.stats.committed_count ≡ 0
        → InTables (all_submissions turns) (run database_store c started turns last w)
    run-InTables c started turns last w fresh items accepted committed =
        RunEnds-InTables (all_submissions turns) (run database_store c started turns last w) (
          subst
            (λ j.
              RunEnds database_store database_store-IsTransactional j (all_submissions turns)
                (run database_store c started turns last w))
            fresh
            (run-RunEnds database_store database_store-IsTransactional c started turns last w items
              accepted committed))
