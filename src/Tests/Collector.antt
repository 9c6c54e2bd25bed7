-- ===== src/Tests/Collector.antt =====
-- src/collector.py: a late pass over two sensors on one bus, and a shutdown with a thread that hangs.
use sensorctl.Prelude.{
  ℕ, ◌≡◌, refl, true, false, none, some, [], ◌∷◌, String, arith, runtime_error, ok,
}
use sensorctl.Prelude.Dict.{lookup, insert}
use sensorctl.Config.Sensor.{SensorConfig}
use sensorctl.Runtime.Status.{RuntimeStats, fresh_status, can_run, dispatch, missed, shutdown}
use sensorctl.Runtime.Queue.{new_queue, close}
use sensorctl.Collector.Schedule.{
  Scheduler, visit, visit_all, reschedule, start_read, put_task, intervals_of, one_pass, Tick,
}
use sensorctl.Collector.Schedule.Visits.{Visited, visit-Visited, task_of}
use sensorctl.Collector.Schedule.Passes.{Planned, one_pass-Planned}
use sensorctl.Collector.Shutdown.{
  Threads, System, join_all, alive_names, error_texts, put_none, joined_at, shut_down,
}
use sensorctl.Collector.Shutdown.Complete.{Concluded, shut_down-Concluded}

abbrev sensor : String → ℕ → SensorConfig
sensor id interval_ms = record {
  id = id;
  driver = "mock";
  bus = "main";
  interval_ms = interval_ms;
  location = "roof";
  enabled = true;
  address = none;
  options = [];
}

abbrev stats : RuntimeStats
stats = record {
  sensors = ("a", fresh_status) ∷ ("b", record fresh_status { pending = true }) ∷ [];
  started_at = "2026-01-01 00:00:00.000";
  last_commit_at = none;
  accepted_count = 0;
  committed_count = 0;
  shutdown_report = none;
}

abbrev scheduler : Scheduler
scheduler = record {
  deadlines = ("a", 1000) ∷ ("b", 1000) ∷ [];
  stats = stats;
  bus_tasks = ("main", []) ∷ [];
}

abbrev late : Tick
late = record {
  others = λ s. s;
  is_stopped = false;
  now = 1025;
  writer_error = none;
  worker_errors = none ∷ [];
}

opened : Unit {0}
unfolding visit visit_all reschedule start_read put_task intervals_of one_pass can_run dispatch
    missed lookup insert join_all alive_names error_texts put_none joined_at shut_down shutdown
    close
opened = tt

late_deadlines :
    (one_pass (sensor "a" 10 ∷ sensor "b" 100 ∷ []) late scheduler).1.deadlines
    ≡ ("a", 1030) ∷ ("b", 1100) ∷ []
unfolding opened
late_deadlines = refl

late_tasks :
    (one_pass (sensor "a" 10 ∷ sensor "b" 100 ∷ []) late scheduler).1.bus_tasks
    ≡ ("main", task_of (sensor "a" 10) ∷ []) ∷ []
unfolding opened
late_tasks = refl

facts :
    (lookup "a" scheduler.deadlines ≡ some 1000)
    × (lookup "a" (intervals_of (sensor "a" 10 ∷ []) []) ≡ some 10)
    × (lookup "a" stats.sensors ≡ some fresh_status)
    × (lookup "main" scheduler.bus_tasks ≡ some [])
    × (lookup "b" scheduler.deadlines ≡ some 1000)
    × (lookup "b" stats.sensors ≡ some (record fresh_status { pending = true }))
unfolding opened
facts = (refl, refl, refl, refl, refl, refl)

visit-Visited_example :
    Visited
      (sensor "a" 10)
      1025
      fresh_status
      []
      1000
      10
      scheduler
      (visit (intervals_of (sensor "a" 10 ∷ []) []) 1025 (sensor "a" 10) scheduler)
visit-Visited_example =
    visit-Visited (sensor "a" 10) 1025 fresh_status [] (intervals_of (sensor "a" 10 ∷ []) []) 1000
      10 scheduler facts.0 facts.1 facts.2 facts.3 (omega arith) (omega arith)

one_pass-Planned_example :
    Planned
      (sensor "a" 10 ∷ sensor "b" 100 ∷ [])
      late
      (one_pass (sensor "a" 10 ∷ sensor "b" 100 ∷ []) late scheduler)
one_pass-Planned_example =
    one_pass-Planned (sensor "a" 10 ∷ sensor "b" 100 ∷ []) late scheduler
      (omega arith, (omega arith, tt))
      (
        record {
          deadline = (1000, facts.0);
          status = (fresh_status, facts.2);
          queue = ([], facts.3);
        },
        (
          record {
            deadline = (1000, facts.4);
            status = (record fresh_status { pending = true }, facts.5);
            queue = ([], facts.3);
          },
          tt,
        ),
      )

-- The worker hangs, the writer failed: both are reported after five seconds.
abbrev threads : Threads
threads = record {
  workers = record { name = "bus-main"; ends_at = none; error = none } ∷ [];
  writer = record {
    name = "writer";
    ends_at = some 1200;
    error = some (record { kind = runtime_error; message = "disk full" });
  };
  status_writer = record { name = "status-writer"; ends_at = some 900; error = none };
}

abbrev system : System
system = record {
  shared = record { stats = stats; queue = new_queue 5; stop_event = false };
  bus_tasks = ("main", []) ∷ [];
}

hangs : joined_at 6000 threads 1000 ≡ 6000
unfolding opened
hangs = refl

shut_down-Concluded_example :
    Concluded 5 1000 threads (ok tt) (shut_down 5 1000 threads (ok tt) system)
shut_down-Concluded_example = shut_down-Concluded 5 1000 threads (ok tt) system
