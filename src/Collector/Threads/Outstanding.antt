-- ===== src/Collector/Threads/Outstanding.antt =====
-- The tasks of src/collector.py from its set-up on, in any order of the threads' steps.
use sensorctl.Prelude.{
  ℕ, ◌≤◌, ◌≡◌, refl, arith, String, Bool, false, List, [], ◌∷◌, Option, All, All-at, All_of_each,
  Result, ok, Option-cases, inl, inr,
}
use sensorctl.Prelude.Dict.{lookup}
use sensorctl.Config.Bus.{BusConfig}
use sensorctl.Config.Sensor.{SensorConfig}
use sensorctl.Config.Load.{AppConfig, Source, load_config}
use sensorctl.Config.Paths.{FilePath}
use sensorctl.Hardware.Driver.{Transport}
use sensorctl.Hardware.Registry.{Factories, PreparedDrivers, prepare}
use sensorctl.Runtime.Worker.{ReadTask}
use sensorctl.Collector.Start.{Surroundings, Setup, set_up}
use sensorctl.Collector.Start.Fit.{prepared-IsFit}
use sensorctl.Collector.Start.Wired.{IsWired, set_up-IsWired, set_up-empty}
use sensorctl.Collector.Threads.{opens, reads, tasks_at, SystemState, Reach}
use sensorctl.Collector.Threads.Begin.{begin}
use sensorctl.Collector.Threads.Safe.{IsOwn, Sound, Safe}
use sensorctl.Collector.Threads.Reached.{Reach-Safe}
use sensorctl.Collector.Threads.Bounded.{task_count, on_bus, Safe-bounded}

module _ (W : Type 0) (create_transport : BusConfig → Result (Transport W))
    (around : Surroundings W) (config : AppConfig) (prepared : PreparedDrivers W)
    (boot_id started_at : String) (now : String → ℕ) (setup : Setup W)
    (begins : set_up W create_transport around config prepared boot_id started_at now ≡ ok setup)
    (hardware : String → W) where
  pub no_tasks : (bus_id : String) → tasks_at bus_id setup.scheduler.bus_tasks ≡ []
  no_tasks bus_id = elim (Option-cases (lookup bus_id setup.scheduler.bus_tasks)) [
    | inl e ↦ ground (arith, e)
    | inr (l, e) ↦
        let empty =
          set_up-empty W create_transport around config prepared boot_id started_at now setup begins
            bus_id l e in
        ground (arith, e, empty)
  ]

  pub begin-Safe : Safe prepared.sensors (begin W setup hardware)
  unfolding begin
  begin-Safe = record {
    each = λ x m.
        let w =
          All-at (IsWired W create_transport around config prepared boot_id now setup)
            prepared.sensors x
            (set_up-IsWired W create_transport around config prepared boot_id started_at now setup
              begins)
            m in
        record {
          deadline = (now x.id, w.deadline);
          queue = ([], w.queue);
          pending = false;
          has = (_, w.idle, refl);
          balanced = ground (arith, w.queue);
        };
    own = λ k. nothing_own k (tasks_at k setup.scheduler.bus_tasks) (no_tasks k);
    own_read = λ k task h. absurd (not_reading task h);
  }
    where
      nothing_own :
          (k : String) (l : List (Option ReadTask)) → l ≡ [] → All (IsOwn prepared.sensors k) l
      nothing_own k [] h = tt
      nothing_own k (x ∷ l) h = cc

      not_reading : (task : ReadTask) → opens ≡ reads task → ⊥
      not_reading task h = cc

-- Every enabled sensor is `Sound`, every task waits at the bus of its sensor, and no queue has more
-- tasks than its bus has enabled sensors.
pub record Orderly {W : Type 0} (enabled : List SensorConfig) (s : SystemState W) : Type 0 where
  pub one_each : All (Sound s) enabled
  pub at_own_bus : (bus_id : String) → All (IsOwn enabled bus_id) (tasks_at bus_id s.bus_tasks)
  pub bounded : (bus_id : String) → task_count (tasks_at bus_id s.bus_tasks) ≤ on_bus bus_id enabled

-- Whatever steps the threads make from a set-up for a loaded configuration, and in whatever order: a
-- sensor that is pending has exactly one task, in the queue of its bus or at that bus's worker, and
-- one that is not pending has none; each task waits at the bus of its sensor; and so the queues,
-- which have no limit of their own, hold at most one task for each enabled sensor of their bus.
pub set_up-Orderly :
    (W : Type 0) (factories : Factories W) (u : ℕ → Bool) (path : FilePath) (source : Source)
    (config : AppConfig) (prepared : PreparedDrivers W)
    (create_transport : BusConfig → Result (Transport W)) (around : Surroundings W)
    (boot_id started_at : String) (now : String → ℕ) (setup : Setup W) (hardware : String → W)
    (s : SystemState W)
    → load_config u path source ≡ ok config
    → prepare W factories config ≡ ok prepared
    → set_up W create_transport around config prepared boot_id started_at now ≡ ok setup
    → Reach W setup.workers prepared.sensors (begin W setup hardware) s
    → Orderly prepared.sensors s
set_up-Orderly W factories u path source config prepared create_transport around boot_id started_at
      now setup hardware s loads prepares begins reaches =
    let fit = prepared-IsFit W factories u path source config prepared loads prepares in
    let v =
      Reach-Safe setup.workers prepared.sensors fit.distinct fit.positive
        (begin-Safe W create_transport around config prepared boot_id started_at now setup begins
          hardware)
        reaches in
    record {
      one_each = All_of_each (Sound s) prepared.sensors v.each;
      at_own_bus = v.own;
      bounded = λ k. Safe-bounded prepared.sensors s k v;
    }
