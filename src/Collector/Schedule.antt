-- ===== src/Collector/Schedule.antt =====
-- The loop of `Collector.run` in src/collector.py: each pass looks at every enabled sensor at one
-- time, in milliseconds. A visit to a sensor is one step for the statistics.
pub mod Visits
pub mod Lookups
pub mod Passes
use sensorctl.Prelude.{
  ℕ, ◌+◌, ◌-◌, ◌*◌, ◌/◌, min, String, Bool, true, false, not, Option, none, some, List, [], ◌∷◌,
  ◌++◌, ltb, if◌then◌else◌, Exception, Result, ok, raise, or_raise, key_error, runtime_error,
}
use sensorctl.Prelude.Dict.{Dict, lookup, insert, values}
use sensorctl.Prelude.Exec.{Exec, pure, lift, ◌>>=◌, ◌>>◌}
use sensorctl.Config.Sensor.{SensorConfig}
use sensorctl.Runtime.Status.{RuntimeStats, can_run, dispatch, missed}
use sensorctl.Runtime.Worker.{ReadTask}

pub record Scheduler : Type 0 where
  pub deadlines : Dict ℕ
  pub stats : RuntimeStats
  pub bus_tasks : Dict (List (Option ReadTask))

abbrev pub on_stats {ℓ} : {A : Type ℓ} → Exec RuntimeStats A → Exec Scheduler A
on_stats m s = let (r, stats) = m s.stats in (r, record s { stats = stats })

-- `d[key]`
abbrev pub get_item {ℓ} : {A : Type ℓ} → String → (Scheduler → Dict A) → Exec Scheduler A
get_item key field s = lift (or_raise (lookup key (field s)) key_error key) s

-- `bus_tasks[sensor.bus].put_nowait(...)`, on a queue without a limit.
unfoldable pub put_task : String → Option ReadTask → Exec Scheduler (Unit {0})
put_task bus task = do
  tasks ← get_item bus λ (s : Scheduler). s.bus_tasks
  λ s. pure tt (record s { bus_tasks = insert bus (tasks ++ task ∷ []) s.bus_tasks })

-- `(now - deadline) // interval + 1`, where `now` is not before the deadline.
abbrev pub periods_since : ℕ → ℕ → ℕ → ℕ
periods_since deadline now interval = (now - deadline) / interval + 1

unfoldable pub start_read : SensorConfig → ℕ → Exec Scheduler (Unit {0})
start_read sensor now = do
  allowed ← on_stats (can_run sensor.id now)
  if not allowed then on_stats (missed sensor.id 1) else (do
    dispatched ← on_stats (dispatch sensor.id)
    if dispatched then put_task sensor.bus (some (record { sensor = sensor })) else pure tt)

-- The rest of a visit, from the assignment to `deadlines`.
unfoldable pub reschedule : SensorConfig → ℕ → ℕ → ℕ → Exec Scheduler (Unit {0})
reschedule sensor now deadline interval =
    let periods = periods_since deadline now interval in
    (λ (s : Scheduler).
      pure tt
        (record s { deadlines = insert sensor.id (deadline + periods * interval) s.deadlines }))
    >> ((if ltb 1 periods then on_stats (missed sensor.id (periods - 1)) else pure tt)
        >> start_read sensor now)

-- The body of `for sensor in enabled:`
unfoldable pub visit : Dict ℕ → ℕ → SensorConfig → Exec Scheduler (Unit {0})
visit intervals now sensor = do
  deadline ← get_item sensor.id λ (s : Scheduler). s.deadlines
  if ltb now deadline then pure tt else (do
    interval ← get_item sensor.id λ (s : Scheduler). intervals
    reschedule sensor now deadline interval)

unfoldable pub visit_all : Dict ℕ → ℕ → List SensorConfig → Exec Scheduler (Unit {0})
visit_all intervals now [] = pure tt
visit_all intervals now (sensor ∷ sensors) =
    let rest = visit_all intervals now sensors in visit intervals now sensor >> rest

-- `{sensor.id: sensor.interval_ms for sensor in enabled}`
unfoldable pub intervals_of : List SensorConfig → Dict ℕ → Dict ℕ
intervals_of [] d = d
intervals_of (sensor ∷ sensors) d = intervals_of sensors (insert sensor.id sensor.interval_ms d)

-- `next((worker.error for worker in workers if worker.error is not None), None)`
abbrev pub first_error : List (Option Exception) → Option Exception
first_error [] = none
first_error (none ∷ errors) = first_error errors
first_error (some e ∷ errors) = some e

abbrev pub raise_if : Option Exception → String → Result (Unit {0})
raise_if none message = ok tt
raise_if (some e) message = raise runtime_error message

-- What a pass observes: what the workers did to the statistics and the queues since the last one, the
-- stop event before it, the time, the errors of the threads after it.
pub record Tick : Type 0 where
  pub others : Scheduler → Scheduler
  pub is_stopped : Bool
  pub now : ℕ
  pub writer_error : Option Exception
  pub worker_errors : List (Option Exception)

-- One pass, up to the wait.
unfoldable pub one_pass : List SensorConfig → Tick → Exec Scheduler (Unit {0})
one_pass enabled t = do
  visit_all (intervals_of enabled []) t.now enabled
  lift (raise_if t.writer_error "database writer stopped")
  lift (raise_if (first_error t.worker_errors) "bus worker stopped")

-- `min(deadlines.values())`, for values that are not none.
abbrev pub nearest : ℕ → List ℕ → ℕ
nearest d [] = d
nearest d (e ∷ ds) = nearest (min d e) ds

-- The milliseconds to wait, at the time after the pass.
abbrev pub wait_ms : ℕ → ℕ → ℕ
wait_ms nearest_deadline now = min 100 (nearest_deadline - now)

-- The loop, for as long as the ticks last.
unfoldable pub run_loop : List SensorConfig → List Tick → Exec Scheduler (Unit {0})
run_loop enabled [] s = pure tt s
run_loop enabled (t ∷ ts) s =
    let rest = run_loop enabled ts in
    let pass = if t.is_stopped then pure tt else (one_pass enabled t >> rest) in pass (t.others s)
