-- ===== src/Collector/Start.antt =====
-- The first half of `Collector.run` in src/collector.py: the queues, the workers and the first
-- deadlines, after the sensors are registered. A set of bus names is in the order of the sensors.
pub mod Entries
pub mod Workers
pub mod Wired
pub mod Fit
pub mod Loop
use sensorctl.Prelude.{
  ℕ, String, Bool, true, false, Option, none, some, List, [], ◌∷◌, map, is_empty, str_eq,
  if◌then◌else◌, Kind, os_error, permission_error, timeout_error, Exception, Result, ok, err,
  forbid, or_raise, key_error, runtime_error, ◌>>=◌, ◌>>◌,
}
use sensorctl.Prelude.Dict.{Dict, lookup, insert, keys}
use sensorctl.Model.{FieldDefinition}
use sensorctl.Config.Bus.{BusConfig}
use sensorctl.Config.Sensor.{SensorConfig}
use sensorctl.Config.Load.{AppConfig}
use sensorctl.Hardware.Driver.{SensorDriver, Transport}
use sensorctl.Hardware.Registry.{PreparedDrivers}
use sensorctl.Runtime.Status.{RuntimeStats, init}
use sensorctl.Runtime.Queue.{SampleQueue, new_queue}
use sensorctl.Runtime.Worker.{Bus, ReadTask}
use sensorctl.Collector.Schedule.{Scheduler, intervals_of}

abbrev pub is_os_error : Kind → Bool
is_os_error os_error = true
is_os_error permission_error = true
is_os_error timeout_error = true
is_os_error _ = false

abbrev pub or_unknown : (String → String) → Result String → Result String
or_unknown strip (ok text) = ok (strip text)
or_unknown strip (err e) = if is_os_error e.kind then ok "unknown" else err e

-- `_read_boot_id`, from what the read of the file gives.
unfoldable pub read_boot_id : (String → String) → Result String → Result String
read_boot_id strip read_text = or_unknown strip read_text

-- `{sensor_id: driver.fields for sensor_id, driver in drivers.items()}`
unfoldable pub fields_by_sensor : {W : Type 0} → Dict (SensorDriver W) → Dict (List FieldDefinition)
fields_by_sensor [] = []
fields_by_sensor ((id, driver) ∷ drivers) = (id, driver.fields) ∷ fields_by_sensor drivers

-- An empty queue for the bus of each sensor.
unfoldable pub empty_queues :
    List SensorConfig → Dict (List (Option ReadTask)) → Dict (List (Option ReadTask))
empty_queues [] d = d
empty_queues (sensor ∷ sensors) d = empty_queues sensors (insert sensor.bus [] d)

-- The clock when the deadline of a sensor is set, in milliseconds.
unfoldable pub first_deadlines : (String → ℕ) → List SensorConfig → Dict ℕ → Dict ℕ
first_deadlines now [] d = d
first_deadlines now (sensor ∷ sensors) d =
    first_deadlines now sensors (insert sensor.id (now sensor.id) d)

abbrev pub sensor_ids : List SensorConfig → List String
sensor_ids = map (λ (sensor : SensorConfig). sensor.id)

module _ (W : Type 0) where
  -- The clocks, the stop event and the wait that every worker has.
  pub record Surroundings : Type 0 where
    pub monotonic_ns : W → ℕ
    pub local_now : W → String
    pub is_stopped : W → Bool
    pub wait : W → W

  pub record Setup : Type 0 where
    pub scheduler : Scheduler
    pub intervals : Dict ℕ
    pub workers : Dict (Bus W)
    pub results : SampleQueue

  module _ (create_transport : BusConfig → Result (Transport W)) (around : Surroundings) where
    -- `{sensor.id: drivers[sensor.id] for sensor in enabled if sensor.bus == bus_id}`
    unfoldable pub bus_drivers :
        Dict (SensorDriver W)
        → String
        → List SensorConfig
        → Dict (SensorDriver W)
        → Result (Dict (SensorDriver W))
    bus_drivers drivers bus_id [] d = ok d
    bus_drivers drivers bus_id (sensor ∷ sensors) d =
        let skipped = bus_drivers drivers bus_id sensors d in
        let rest = λ (driver : SensorDriver W).
          bus_drivers drivers bus_id sensors (insert sensor.id driver d) in
        if str_eq sensor.bus bus_id
        then or_raise (lookup sensor.id drivers) key_error sensor.id >>= rest
        else skipped

    abbrev pub worker_of : String → Dict (SensorDriver W) → BusConfig → Transport W → Bus W
    worker_of boot_id drivers bus transport = record {
      transport = transport;
      drivers = drivers;
      boot_id = boot_id;
      retries = bus.retries;
      monotonic_ns = around.monotonic_ns;
      local_now = around.local_now;
      is_stopped = around.is_stopped;
      wait = around.wait;
    }

    -- One pass of the loop over `bus_tasks`.
    unfoldable pub make_worker : AppConfig → PreparedDrivers W → String → String → Result (Bus W)
    make_worker config prepared boot_id bus_id =
        bus_drivers prepared.by_sensor_id bus_id prepared.sensors [] >>= λ drivers.
        or_raise (lookup bus_id config.buses) key_error bus_id >>= λ bus.
        create_transport bus >>= λ transport. ok (worker_of boot_id drivers bus transport)

    unfoldable pub make_workers :
        AppConfig → PreparedDrivers W → String → List String → Result (Dict (Bus W))
    make_workers config prepared boot_id [] = ok []
    make_workers config prepared boot_id (bus_id ∷ bus_ids) =
        let rest = make_workers config prepared boot_id bus_ids in
        make_worker config prepared boot_id bus_id >>= λ worker.
        rest >>= λ workers. ok ((bus_id, worker) ∷ workers)

    unfoldable pub set_up :
        AppConfig → PreparedDrivers W → String → String → (String → ℕ) → Result Setup
    set_up config prepared boot_id started_at now =
        let enabled = prepared.sensors in
        let bus_tasks = empty_queues enabled [] in
        forbid (is_empty enabled) runtime_error "at least one enabled sensor is required"
        >> (make_workers config prepared boot_id (keys bus_tasks) >>= λ workers. ok (record {
          scheduler = record {
            deadlines = first_deadlines now enabled [];
            stats = init (sensor_ids enabled) started_at;
            bus_tasks = bus_tasks;
          };
          intervals = intervals_of enabled [];
          workers = workers;
          results = new_queue config.collector.queue_size;
        }))
