-- ===== src/Collector/Start/Loop.antt =====
-- The loop of src/collector.py on what the collector starts with, for a configuration that was loaded.
use sensorctl.Prelude.{
  ℕ, ◌≡◌, ap, sym, arith, String, Bool, true, not, ◌&&◌, List, [], ◌∷◌, All, All-imp, any, if-cases,
  Result, ok, err,
}
use sensorctl.Prelude.Exec.{Exec, pure, ◌>>◌, >>=-through}
use sensorctl.Config.Bus.{BusConfig}
use sensorctl.Config.Sensor.{SensorConfig}
use sensorctl.Config.Load.{AppConfig, Source, load_config}
use sensorctl.Config.Paths.{FilePath}
use sensorctl.Hardware.Driver.{Transport}
use sensorctl.Hardware.Registry.{Factories, PreparedDrivers, prepare}
use sensorctl.Collector.Schedule.{Scheduler, Tick, first_error, one_pass, run_loop}
use sensorctl.Collector.Schedule.Lookups.{Ready, Positive}
use sensorctl.Collector.Schedule.Passes.{Planned, RaisesRuntime, is_none, one_pass-Planned}
use sensorctl.Collector.Start.{Surroundings, Setup, set_up}
use sensorctl.Collector.Start.Fit.{prepared-IsFit}
use sensorctl.Collector.Start.Wired.{IsWired, set_up-IsWired}

-- At this pass the writer or a worker has an error.
abbrev pub has_error : Tick → Bool
has_error t = not (is_none t.writer_error && is_none (first_error t.worker_errors))

-- The workers change the entries of the statistics and the queues, and take none away.
abbrev pub KeepsEntries : Tick → Type 0
KeepsEntries t = (s : Scheduler) (x : SensorConfig) → Ready s x → Ready (t.others s) x

-- The loop leaves every sensor with what the next pass needs; it raises only `RuntimeError`, and only
-- for the error of a thread.
abbrev pub LoopEnd : List SensorConfig → List Tick → Result (Unit {0}) × Scheduler → Type 0
LoopEnd enabled ts (ok u, s) = All (Ready s) enabled
LoopEnd enabled ts (err e, s) =
    All (Ready s) enabled × RaisesRuntime (err e) × (any has_error ts ≡ true)

module _ (enabled : List SensorConfig) (positive : All Positive enabled) where
  more :
      (t : Tick) (ts : List Tick) (r : Result (Unit {0}) × Scheduler)
      → LoopEnd enabled ts r
      → LoopEnd enabled (t ∷ ts) r
  more t ts (ok u, s) h = h
  more t ts (err e, s) (ready, only, some_error) = (ready, only, ground (arith, some_error))

  -- The way out of one pass.
  abbrev PassEnd : Tick → Result (Unit {0}) × Scheduler → Type 0
  PassEnd t (ok u, s) = All (Ready s) enabled
  PassEnd t (err e, s) = All (Ready s) enabled × RaisesRuntime (err e) × (has_error t ≡ true)

  pass-PassEnd : (t : Tick) (r : Result (Unit {0}) × Scheduler) → Planned enabled t r → PassEnd t r
  pass-PassEnd t (ok u, s) p = p.ready
  pass-PassEnd t (err e, s) p = (p.ready, p.raises, ap not (sym p.watches))

  run_loop-LoopEnd :
      (ts : List Tick) (s : Scheduler)
      → All KeepsEntries ts
      → All (Ready s) enabled
      → LoopEnd enabled ts (run_loop enabled ts s)
  unfolding run_loop
  run_loop-LoopEnd [] s keep ready = ready
  run_loop-LoopEnd (t ∷ ts) s keep ready =
      let s0 = t.others s in
      let ready0 = All-imp (Ready s) (Ready s0) enabled (keep.0 s) ready in
      if-cases (λ (m : Exec Scheduler (Unit {0})). LoopEnd enabled (t ∷ ts) (m s0)) t.is_stopped
        (pure tt) (one_pass enabled t >> run_loop enabled ts) (λ _. ready0)
        (λ _.
          >>=-through (PassEnd t) (LoopEnd enabled (t ∷ ts)) (one_pass enabled t)
            (λ _. run_loop enabled ts) s0
            (pass-PassEnd t (one_pass enabled t s0) (one_pass-Planned enabled t s0 positive ready0))
            (λ _ s1 ready1.
              more t ts (run_loop enabled ts s1) (run_loop-LoopEnd ts s1 keep.1 ready1))
            (λ e s1 (ready1, only, error). (ready1, only, ground (arith, error))))

-- From a loaded configuration, the drivers that the registry prepared for it and the set-up, the loop
-- never lacks an entry of a dict: however many passes it makes and at whatever times, it raises only
-- `RuntimeError`, and only if the writer or a worker has an error. What the workers do between the
-- passes takes away no entry of the statistics and no queue.
pub set_up-LoopEnd :
    (W : Type 0) (factories : Factories W) (u : ℕ → Bool) (path : FilePath) (source : Source)
    (config : AppConfig) (prepared : PreparedDrivers W)
    (create_transport : BusConfig → Result (Transport W)) (around : Surroundings W)
    (boot_id started_at : String) (now : String → ℕ) (setup : Setup W) (ts : List Tick)
    → load_config u path source ≡ ok config
    → prepare W factories config ≡ ok prepared
    → set_up W create_transport around config prepared boot_id started_at now ≡ ok setup
    → All KeepsEntries ts
    → LoopEnd prepared.sensors ts (run_loop prepared.sensors ts setup.scheduler)
set_up-LoopEnd W factories u path source config prepared create_transport around boot_id started_at
      now setup ts loads prepares begins keep =
    let fit = prepared-IsFit W factories u path source config prepared loads prepares in
    run_loop-LoopEnd prepared.sensors fit.positive ts setup.scheduler keep (
      All-imp (IsWired W create_transport around config prepared boot_id now setup)
        (Ready setup.scheduler) prepared.sensors
        (λ s w. record {
          deadline = (now s.id, w.deadline);
          status = (_, w.idle);
          queue = ([], w.queue);
        })
        (set_up-IsWired W create_transport around config prepared boot_id started_at now setup
          begins))
