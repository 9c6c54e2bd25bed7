-- ===== src/Tests/Writer.antt =====
-- The database writer over a list as the store.
use sensorctl.Prelude.{ℕ, ◌≡◌, refl, true, false, none, some, List, [], ◌∷◌, ◌++◌, ok}
use sensorctl.Prelude.Dict.{lookup, insert}
use sensorctl.Model.{Sample}
use sensorctl.Runtime.Status.{fresh_status, accepted, dropped, committed}
use sensorctl.Runtime.Queue.{Shared, new_queue, submit, close, drained, get}
use sensorctl.Runtime.Store.{SampleStore, IsTransactional}
use sensorctl.Runtime.Writer.{
  happen, happen_all, submits, closes, Turn, WriterConfig, World, finished, run,
}
use sensorctl.Runtime.Writer.Flow.{all_submissions}
use sensorctl.Runtime.Writer.Run.{RunEnds, run-RunEnds}
use sensorctl.Runtime.Writer.Closing.{Closing}

-- What a run computes with.
opened : Unit {0}
unfolding run happen_all happen get submit close drained accepted dropped committed lookup insert
opened = tt

abbrev list_store : SampleStore
list_store = record {
  State = List Sample;
  open_store = λ s. (ok tt, s);
  close_store = λ checkpoint s. (ok tt, s);
  write = λ samples s. (ok tt, s ++ samples);
  contents = λ s. s;
}

list_store-IsTransactional : IsTransactional list_store
list_store-IsTransactional = record {
  write_ok = λ samples s h. refl;
  write_err = λ samples s e h. cc;
  open_keeps = λ s. refl;
  close_keeps = λ checkpoint s. refl;
}

abbrev pub reading : ℕ → Sample
reading n = record {
  sensor_id = "a";
  time = "2026-01-01 00:00:00.000";
  monotonic_ms = n;
  boot_id = "b";
  values = [];
}

abbrev pub start : Shared
start = record {
  stats = record {
    sensors = ("a", fresh_status) ∷ [];
    started_at = "2026-01-01 00:00:00.000";
    last_commit_at = none;
    accepted_count = 0;
    committed_count = 0;
    shutdown_report = none;
  };
  queue = new_queue 2;
  stop_event = false;
}

abbrev pub quick : WriterConfig
quick = record { batch_size = 2; flush_interval_ms = 10 }

abbrev pub idle_turn : Turn
idle_turn = record { before = []; between = []; now = 0; writing = []; committed_at = "c" }

-- Three samples meet a queue with room for two; the fourth comes during the write.
abbrev pub turns : List Turn
turns =
    record idle_turn {
      before = submits (reading 1) ∷ submits (reading 2) ∷ submits (reading 3) ∷ [];
    }
    ∷ record idle_turn { writing = submits (reading 4) ∷ [] }
    ∷ record idle_turn { before = closes ∷ [] }
    ∷ idle_turn
    ∷ []

abbrev world : World list_store
world = record { shared = start; db = [] }

run_writes : (run list_store quick 0 turns "z" world).1.db ≡ reading 1 ∷ reading 2 ∷ reading 4 ∷ []
unfolding opened
run_writes = refl

run_finishes : (run list_store quick 0 turns "z" world).0 ≡ finished
unfolding opened
run_finishes = refl

run-RunEnds_example :
    RunEnds list_store list_store-IsTransactional []
      (all_submissions turns)
      (run list_store quick 0 turns "z" world)
run-RunEnds_example =
    run-RunEnds list_store list_store-IsTransactional quick 0 turns "z" world refl refl refl

abbrev closed_world : World list_store
closed_world = record {
  shared = record start {
    queue = record (start.queue) {
      items = some (reading 1) ∷ some (reading 2) ∷ [];
      closed = true;
    };
  };
  db = [];
}
