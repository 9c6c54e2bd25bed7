-- ===== src/Collector/Threads/Finally.antt =====
-- The end of the workers after the `finally` of src/collector.py has begun.
use sensorctl.Prelude.{
  ℕ, ◌≡◌, refl, ap, ◌∙◌, subst, inl, inr, arith, String, Bool, true, false, Option, none, some,
  List, [], ◌∷◌, ◌++◌, IsIn, Result, ok,
}
use sensorctl.Prelude.Dict.{Dict, lookup}
use sensorctl.Config.Bus.{BusConfig}
use sensorctl.Config.Sensor.{SensorConfig}
use sensorctl.Config.Load.{AppConfig, Source, load_config}
use sensorctl.Config.Paths.{FilePath}
use sensorctl.Hardware.Driver.{Transport}
use sensorctl.Hardware.Registry.{Factories, PreparedDrivers, prepare}
use sensorctl.Runtime.Status.Pending.{HasPending}
use sensorctl.Runtime.Worker.{ReadTask, Bus}
use sensorctl.Collector.Start.{Surroundings, Setup, set_up}
use sensorctl.Collector.Start.Wired.{set_up-empty}
use sensorctl.Collector.Start.Fit.{prepared-IsFit}
use sensorctl.Collector.Threads.{leaves, SystemState, begin_finally, finishes, Reach, here, later}
use sensorctl.Collector.Threads.Begin.{begin}
use sensorctl.Collector.Threads.Balance.{lookup-put_none}
use sensorctl.Collector.Threads.Safe.{Sound}
use sensorctl.Collector.Threads.Reached.{Step-Safe, Reach-Safe}
use sensorctl.Collector.Threads.Outstanding.{begin-Safe}
use sensorctl.Collector.Threads.Draining.{in_loop, Drains, Draining, Step-Draining}
use sensorctl.Collector.Threads.Unmarked.{AreTasks, Unmarked, Reach-Unmarked}

Reach-Draining :
    {W : Type 0} (k : String) (workers : Dict (Bus W)) (enabled : List SensorConfig)
    {s t : SystemState W}
    → Draining k s
    → Reach W workers enabled s t
    → Draining k t
Reach-Draining k workers enabled d here = d
Reach-Draining k workers enabled d (later r step) =
    Step-Draining k workers enabled step (Reach-Draining k workers enabled d r)

-- The mark is put behind the tasks of a queue that has none.
marked-Draining :
    {W : Type 0} (k : String) (u : SystemState W) (items : List (Option ReadTask))
    → lookup k u.bus_tasks ≡ some items
    → AreTasks items
    → in_loop (u.stations k).phase ≡ true
    → Draining k (begin_finally W u)
marked-Draining k u items found (tasks, e) busy = record {
  over = refl;
  drains =
      inl (
        tasks,
        lookup-put_none k u.bus_tasks items found ∙ ap (λ l. some (l ++ none ∷ [])) e,
        busy,
      );
}

-- A worker that drained its queue and has left has nothing outstanding.
left-done :
    {W : Type 0} (s : SystemState W) (x : SensorConfig)
    → Sound s x
    → Drains (lookup x.bus s.bus_tasks) (s.stations x.bus).phase
    → (s.stations x.bus).phase ≡ leaves
    → HasPending s.shared.stats x.id false
left-done s x h (inl (tasks, e, busy)) left = cc (busy, left)
left-done s x h (inr (e, _)) left =
    let idle : h.pending ≡ false = ground (arith, h.balanced, e, left) in
    subst (HasPending s.shared.stats x.id) idle h.has

-- When the `finally` begins, every sensor whose bus's worker is in its loop is served to the end: once
-- that worker has left the loop, none of the bus's sensors is pending, whatever the threads did before
-- and did in between.
pub set_up-Finally :
    (W : Type 0) (factories : Factories W) (c : ℕ → Bool) (path : FilePath) (source : Source)
    (config : AppConfig) (prepared : PreparedDrivers W)
    (create_transport : BusConfig → Result (Transport W)) (around : Surroundings W)
    (boot_id started_at : String) (now : String → ℕ) (setup : Setup W) (hardware : String → W)
    (u s : SystemState W) (x : SensorConfig)
    → load_config c path source ≡ ok config
    → prepare W factories config ≡ ok prepared
    → set_up W create_transport around config prepared boot_id started_at now ≡ ok setup
    → Reach W setup.workers prepared.sensors (begin W setup hardware) u
    → u.in_finally ≡ false
    → Reach W setup.workers prepared.sensors (begin_finally W u) s
    → IsIn x prepared.sensors
    → in_loop (u.stations x.bus).phase ≡ true
    → (s.stations x.bus).phase ≡ leaves
    → HasPending s.shared.stats x.id false
unfolding begin
set_up-Finally W factories c path source config prepared create_transport around boot_id started_at
      now setup hardware u s x loads prepares begins before running after m busy left =
    let fit = prepared-IsFit W factories c path source config prepared loads prepares in
    let workers = setup.workers in
    let enabled = prepared.sensors in
    let (v, unmarked) =
      Reach-Unmarked workers enabled fit.distinct fit.positive
        (begin-Safe W create_transport around config prepared boot_id started_at now setup begins
          hardware)
        begin-Unmarked before in
    let at_u = v.each x m in
    let v1 =
      Reach-Safe workers enabled fit.distinct fit.positive
        (Step-Safe workers enabled fit.distinct fit.positive (finishes running) v) after in
    let d =
      Reach-Draining x.bus workers enabled
        (marked-Draining x.bus u at_u.queue.0 at_u.queue.1
          (unmarked running x.bus at_u.queue.0 at_u.queue.1) busy)
        after in
    left-done s x (v1.each x m) d.drains left
  where
    begin-Unmarked : Unmarked (begin W setup hardware)
    begin-Unmarked _ k items found = (
      [],
      set_up-empty W create_transport around config prepared boot_id started_at now setup begins k
          items found,
    )
