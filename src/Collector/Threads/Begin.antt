-- ===== src/Collector/Threads/Begin.antt =====
-- What src/collector.py starts its threads with.
use sensorctl.Prelude.{String, false, []}
use sensorctl.Collector.Start.{Setup}
use sensorctl.Collector.Threads.{opens, SystemState}

-- No thread has run, and the hardware of each bus is in the given state.
unfoldable pub begin : (W : Type 0) → Setup W → (String → W) → SystemState W
begin W setup hardware = record {
  shared = record { stats = setup.scheduler.stats; queue = setup.results; stop_event = false };
  deadlines = setup.scheduler.deadlines;
  bus_tasks = setup.scheduler.bus_tasks;
  stations = λ bus_id. record {
    hardware = hardware bus_id;
    initialized = [];
    last_warning = [];
    phase = opens;
  };
  in_finally = false;
}
