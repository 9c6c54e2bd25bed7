-- ===== src/Tests/Threads.antt =====
-- The threads of src/collector.py with two sensors on one bus: both are due, the first is read, and the
-- collector stops.
use sensorctl.Prelude.{◌≡◌, refl, true, false, none, some, [], ◌∷◌, inl, inr}
use sensorctl.Prelude.Dict.{lookup, insert}
use sensorctl.Config.Load.{document}
use sensorctl.Config.Sensor.{SensorConfig}
use sensorctl.Runtime.Status.{
  fresh_sensors, init, can_run, dispatch, missed, success, failure, dropped,
}
use sensorctl.Runtime.Status.Pending.{HasPending}
use sensorctl.Runtime.Queue.{submit}
use sensorctl.Runtime.Worker.{
  ReadTask, Bus, perform, measure, recover, read_loop, check_values, ensure_initialized, discard,
}
use sensorctl.Collector.Schedule.{intervals_of, visit, visit_all, reschedule, start_read, put_task}
use sensorctl.Collector.Shutdown.{put_none}
use sensorctl.Collector.Threads.{
  reads, leaves, SystemState, scheduler_of, with_scheduler, bench_of, put_back, enter, open_station,
  with_queue, begin_finally, Reach, here, later, connects, takes, performs, stops, finishes, ends,
  place, visits,
}
use sensorctl.Collector.Threads.Begin.{begin}
use sensorctl.Collector.Threads.Passes.{visit_all-Reach}
use sensorctl.Collector.Threads.Outstanding.{Orderly, set_up-Orderly}
use sensorctl.Collector.Threads.Draining.{in_loop}
use sensorctl.Collector.Threads.Finally.{set_up-Finally}
use sensorctl.Tests.Config.{ascii, two_sensors, loaded, sensor, load_two}
use sensorctl.Tests.Hardware.{factories, prepares_both}
use sensorctl.Tests.Start.{prepared, around, transport, now, worker, begun, begins}

opened : Unit {0}
unfolding begin lookup insert init fresh_sensors visit visit_all reschedule start_read put_task
    intervals_of can_run dispatch missed success failure dropped submit perform measure recover
    read_loop check_values ensure_initialized discard put_none
opened = tt

abbrev at_start : SystemState (Unit {0})
at_start = begin (Unit {0}) begun (λ bus_id. tt)

abbrev connected : SystemState (Unit {0})
connected = open_station (Unit {0}) worker "main" at_start

-- After a pass at 101 each sensor has a task.
abbrev both_due : SystemState (Unit {0})
both_due =
    with_scheduler (Unit {0}) connected
      (visit_all (intervals_of loaded.sensors []) 101 loaded.sensors
        (scheduler_of (Unit {0}) connected)).1

abbrev first : SensorConfig
first = sensor "a" 0x76

abbrev second : SensorConfig
second = sensor "b" 0x77

abbrev task_for : SensorConfig → ReadTask
task_for x = record { sensor = x }

abbrev one_read : SystemState (Unit {0})
one_read =
    enter (Unit {0}) worker "main" (reads (task_for first))
      (with_queue (Unit {0}) "main" (some (task_for second) ∷ []) both_due)

both_due-Reach : Reach (Unit {0}) begun.workers loaded.sensors at_start both_due
unfolding opened
both_due-Reach =
    visit_all-Reach begun.workers loaded.sensors 101 loaded.sensors connected
      (later here (connects "main" worker refl refl)) refl (inl refl, (inr (inl refl), tt))

one_read-Reach : Reach (Unit {0}) begun.workers loaded.sensors at_start one_read
unfolding opened
one_read-Reach =
    later both_due-Reach
      (takes "main" worker (task_for first) (some (task_for second) ∷ []) refl refl refl)

set_up-Orderly_example : Orderly loaded.sensors one_read
set_up-Orderly_example =
    set_up-Orderly (Unit {0}) factories ascii "c.toml" (document (two_sensors 0x77)) loaded prepared
      transport around "boot" "now" now begun (λ bus_id. tt) one_read load_two prepares_both begins
      one_read-Reach

-- From the `finally` on: the first task ends, the second is taken and ends, then the mark is taken.
abbrev stopping : SystemState (Unit {0})
stopping = begin_finally (Unit {0}) one_read

abbrev performed : SensorConfig → SystemState (Unit {0}) → SystemState (Unit {0})
performed x s =
    put_back (Unit {0}) "main" s (perform (Unit {0}) worker x (bench_of (Unit {0}) "main" s)).1

abbrev second_read : SystemState (Unit {0})
second_read =
    enter (Unit {0}) worker "main" (reads (task_for second))
      (with_queue (Unit {0}) "main" (none ∷ []) (performed first stopping))

abbrev ended : SystemState (Unit {0})
ended =
    enter (Unit {0}) worker "main" leaves
      (with_queue (Unit {0}) "main" [] (performed second second_read))

ended-Reach : Reach (Unit {0}) begun.workers loaded.sensors stopping ended
unfolding opened
ended-Reach =
    later
      (later
        (later (later here (performs "main" worker (task_for first) refl refl))
          (takes "main" worker (task_for second) (none ∷ []) refl refl refl))
        (performs "main" worker (task_for second) refl refl))
      (ends "main" worker [] refl refl refl)

is_running :
    (one_read.in_finally ≡ false)
    × (in_loop (one_read.stations "main").phase ≡ true)
    × ((ended.stations "main").phase ≡ leaves)
unfolding opened
is_running = (refl, refl, refl)

set_up-Finally_example : HasPending ended.shared.stats "b" false
set_up-Finally_example =
    set_up-Finally (Unit {0}) factories ascii "c.toml" (document (two_sensors 0x77)) loaded prepared
      transport around "boot" "now" now begun (λ bus_id. tt) one_read ended second load_two
      prepares_both begins one_read-Reach is_running.0 ended-Reach (inr (inl refl)) is_running.1
      is_running.2

-- A worker that sees the stop event with no task left leaves before the pass that is under way ends:
-- the tasks of this pass are never read, and the sensors stay pending.
abbrev stopped_worker : Bus (Unit {0})
stopped_worker = record worker { is_stopped = λ w. true }

abbrev left_early : SystemState (Unit {0})
left_early = record connected {
  stations =
      place (Unit {0}) "main" (record (connected.stations "main") { phase = leaves })
        connected.stations;
}

abbrev too_late : SystemState (Unit {0})
too_late = begin_finally (Unit {0}) (
    with_scheduler (Unit {0}) left_early
      (visit (intervals_of loaded.sensors []) 101 first (scheduler_of (Unit {0}) left_early)).1)

never_read :
    Reach (Unit {0}) (("main", stopped_worker) ∷ []) loaded.sensors at_start too_late
    × ((too_late.stations "main").phase ≡ leaves)
    × HasPending too_late.shared.stats "a" true
unfolding opened
never_read = (
  later
      (later
        (later (later here (connects "main" stopped_worker refl refl))
          (stops "main" stopped_worker refl refl refl refl))
        (visits first 101 refl (inl refl)))
      (finishes refl),
  refl,
  (_, refl, refl),
)
