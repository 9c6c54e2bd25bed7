-- ===== src/Runtime/Store.antt =====
-- What the database writer needs of src/storage/database.py: the context manager of `Database` and
-- `write_samples`, which writes a batch in one transaction.
use sensorctl.Prelude.{Bool, ◌≡◌, List, ◌++◌, Exception, ok, err}
use sensorctl.Prelude.Exec.{Exec}
use sensorctl.Model.{Sample}

pub record SampleStore : Type 1 where
  pub State : Type 0
  pub open_store : Exec State (Unit {0})
  pub close_store : Bool → Exec State (Unit {0})
  pub write : List Sample → Exec State (Unit {0})
  -- The samples that are stored, oldest first.
  pub contents : State → List Sample

-- A batch is stored whole or not at all, and opening and closing store nothing.
pub record IsTransactional (S : SampleStore) : Type 0 where
  pub write_ok :
      (samples : List Sample) (s : S.State)
      → (S.write samples s).0 ≡ ok tt
      → S.contents (S.write samples s).1 ≡ S.contents s ++ samples
  pub write_err :
      (samples : List Sample) (s : S.State) (e : Exception)
      → (S.write samples s).0 ≡ err e
      → S.contents (S.write samples s).1 ≡ S.contents s
  pub open_keeps : (s : S.State) → S.contents (S.open_store s).1 ≡ S.contents s
  pub close_keeps :
      (checkpoint : Bool) (s : S.State) → S.contents (S.close_store checkpoint s).1 ≡ S.contents s
