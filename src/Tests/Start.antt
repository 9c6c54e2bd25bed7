-- ===== src/Tests/Start.antt =====
-- The start of src/collector.py with two sensors on one bus.
use sensorctl.Prelude.{
  ℕ, ◌≡◌, refl, String, false, none, List, [], ◌∷◌, All, Result, ok, raise, os_error, str_eq,
  if◌then◌else◌, key_error,
}
use sensorctl.Prelude.Dict.{lookup, insert}
use sensorctl.Config.Bus.{BusConfig}
use sensorctl.Hardware.Driver.{Transport}
use sensorctl.Hardware.Registry.{PreparedDrivers}
use sensorctl.Hardware.Mock.{mock_transport}
use sensorctl.Runtime.Status.{fresh_sensors, init}
use sensorctl.Runtime.Queue.{new_queue}
use sensorctl.Runtime.Worker.{Bus}
use sensorctl.Collector.Schedule.{Tick, intervals_of, run_loop}
use sensorctl.Collector.Start.{
  read_boot_id, empty_queues, first_deadlines, Surroundings, Setup, bus_drivers, make_worker,
  make_workers, worker_of, set_up,
}
use sensorctl.Collector.Start.Wired.{IsWired, set_up-IsWired}
use sensorctl.Collector.Start.Loop.{LoopEnd, set_up-LoopEnd}
use sensorctl.Config.Load.{document}
use sensorctl.Tests.Config.{ascii, two_sensors, loaded, main_bus, load_two}
use sensorctl.Tests.Hardware.{barometer, factories, prepares_both}

abbrev pub prepared : PreparedDrivers (Unit {0})
prepared = record {
  sensors = loaded.sensors;
  by_sensor_id = ("a", barometer) ∷ ("b", barometer) ∷ [];
}

abbrev pub around : Surroundings (Unit {0})
around = record {
  monotonic_ns = λ w. 0;
  local_now = λ w. "now";
  is_stopped = λ w. false;
  wait = λ w. w;
}

abbrev pub transport : BusConfig → Result (Transport (Unit {0}))
transport bus = ok (mock_transport (Unit {0}))

abbrev pub now : String → ℕ
now id = if str_eq id "a" then 100 else 101

opened : Unit {0}
unfolding set_up make_workers make_worker bus_drivers first_deadlines empty_queues intervals_of
    fresh_sensors init lookup insert
opened = tt

no_boot_id : read_boot_id (λ s. s) (raise os_error "no such file") ≡ ok "unknown"
unfolding read_boot_id
no_boot_id = refl

lost_driver :
    set_up
      (Unit {0})
      transport
      around
      loaded
      (record { sensors = loaded.sensors; by_sensor_id = [] })
      "boot"
      "now"
      now
    ≡ raise key_error "a"
unfolding opened
lost_driver = refl

abbrev pub worker : Bus (Unit {0})
worker =
    worker_of (Unit {0}) transport around "boot" prepared.by_sensor_id main_bus
      (mock_transport (Unit {0}))

abbrev pub begun : Setup (Unit {0})
begun = record {
  scheduler = record {
    deadlines = ("a", 100) ∷ ("b", 101) ∷ [];
    stats = init ("a" ∷ "b" ∷ []) "now";
    bus_tasks = ("main", []) ∷ [];
  };
  intervals = intervals_of loaded.sensors [];
  workers = ("main", worker) ∷ [];
  results = new_queue loaded.collector.queue_size;
}

pub begins : set_up (Unit {0}) transport around loaded prepared "boot" "now" now ≡ ok begun
unfolding opened
begins = refl

set_up-IsWired_example :
    All (IsWired (Unit {0}) transport around loaded prepared "boot" now begun) loaded.sensors
set_up-IsWired_example =
    set_up-IsWired (Unit {0}) transport around loaded prepared "boot" "now" now begun begins

-- The readings due at the second pass find the first ones still in the queue.
abbrev ticks : List Tick
ticks =
    record {
      others = λ s. s;
      is_stopped = false;
      now = 1025;
      writer_error = none;
      worker_errors = none ∷ [];
    }
    ∷ record {
      others = λ s. s;
      is_stopped = false;
      now = 1125;
      writer_error = none;
      worker_errors = none ∷ [];
    }
    ∷ []

set_up-LoopEnd_example :
    LoopEnd loaded.sensors ticks (run_loop loaded.sensors ticks begun.scheduler)
set_up-LoopEnd_example =
    set_up-LoopEnd (Unit {0}) factories ascii "c.toml" (document (two_sensors 0x77)) loaded prepared
      transport around "boot" "now" now begun ticks load_two prepares_both begins
      (λ s x h. h, (λ s x h. h, tt))
