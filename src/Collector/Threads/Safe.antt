-- ===== src/Collector/Threads/Safe.antt =====
-- What holds of the threads of src/collector.py at any time: each task is at its sensor's bus, and a
-- sensor is pending exactly if a task is outstanding for it.
use sensorctl.Prelude.{◌≡◌, String, Bool, Option, none, some, List, if◌then◌else◌, All, IsIn}
use sensorctl.Config.Sensor.{SensorConfig}
use sensorctl.Runtime.Status.Pending.{HasPending, KeepsPending}
use sensorctl.Runtime.Queue.{Shared}
use sensorctl.Runtime.Worker.{ReadTask}
use sensorctl.Prelude.Dict.{Listed}
use sensorctl.Collector.Threads.{reads, tasks_at, SystemState}
use sensorctl.Collector.Threads.Balance.{outstanding}

module _ (enabled : List SensorConfig) where
  -- The task is for an enabled sensor of the bus.
  abbrev pub IsOwn : String → Option ReadTask → Type 0
  IsOwn bus_id none = Unit
  IsOwn bus_id (some task) = IsIn task.sensor enabled × (task.sensor.bus ≡ bus_id)

module _ {W : Type 0} where
  -- The sensor has a deadline and its bus a queue, and it has one task outstanding if it is pending,
  -- and else none.
  pub record Sound (s : SystemState W) (x : SensorConfig) : Type 0 where
    pub deadline : Listed x.id s.deadlines
    pub queue : Listed x.bus s.bus_tasks
    pub pending : Bool
    pub has : HasPending s.shared.stats x.id pending
    pub balanced : outstanding s x ≡ (if pending then 1 else 0)

  pub record Safe (enabled : List SensorConfig) (s : SystemState W) : Type 0 where
    pub each : (x : SensorConfig) → IsIn x enabled → Sound s x
    pub own : (bus_id : String) → All (IsOwn enabled bus_id) (tasks_at bus_id s.bus_tasks)
    pub own_read :
        (bus_id : String) (task : ReadTask)
        → (s.stations bus_id).phase ≡ reads task
        → IsOwn enabled bus_id (some task)

  -- What leaves every `pending` alone may change what is shared.
  pub shared-Safe :
      (enabled : List SensorConfig) (s : SystemState W) (shared : Shared)
      → KeepsPending s.shared.stats shared.stats
      → Safe enabled s
      → Safe enabled (record s { shared = shared })
  shared-Safe enabled s shared keeps v = record {
    each = λ x m.
        let h = v.each x m in
        record {
          deadline = h.deadline;
          queue = h.queue;
          pending = h.pending;
          has = keeps x.id h.pending h.has;
          balanced = h.balanced;
        };
    own = v.own;
    own_read = v.own_read;
  }
