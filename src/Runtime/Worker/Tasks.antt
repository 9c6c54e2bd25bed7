-- ===== src/Runtime/Worker/Tasks.antt =====
-- One task of src/runtime/worker.py: what it counts, hands over and leaves to the next.
use sensorctl.Prelude.{
  ℕ, ◌-◌, ◌≡◌, refl, ap, subst, ◌∙◌, ◌⊎◌, inl, inr, String, false, some, List, [], ◌∷◌, arith,
  Exception, Result, ok, err,
}
use sensorctl.Prelude.Dict.{lookup, mem}
use sensorctl.Config.Sensor.{SensorConfig}
use sensorctl.Runtime.Status.{SensorStatus, store}
use sensorctl.Runtime.Status.Methods.{after_failure, failure_found, lookup-store_self}
use sensorctl.Runtime.Queue.{Shared}
use sensorctl.Runtime.Worker.{Bus, Bench, discard, now_ms, measure, recover, task_done, perform}
use sensorctl.Runtime.Worker.Submit.{OthersStay, OthersStay-store}
use sensorctl.Runtime.Worker.Measure.{Same, Succeeded, MeasureEnd, measure_lem}

mem-discard : (k : String) (js : List String) → mem k (discard k js) ≡ false
unfolding mem discard
mem-discard k [] = refl
mem-discard k (j ∷ js) = ground (arith, mem-discard k js)

module _ (W : Type 0) (c : Bus W) (sensor : SensorConfig) where
  -- What a task that fails leaves: nothing is handed over, and the driver is to be initialised anew.
  pub record Failed (st : SensorStatus) (b : Bench W) (status : SensorStatus) (b' : Bench W)
      : Type 0 where
    pub error : Exception
    pub time_ms : ℕ
    pub counted : status ≡ after_failure error time_ms st
    pub queue_same : b'.shared.queue ≡ b.shared.queue
    pub accepted_same : b'.shared.stats.accepted_count ≡ b.shared.stats.accepted_count
    pub reset : mem sensor.id b'.initialized ≡ false

  pub record Settled (st : SensorStatus) (b : Bench W) (result : Result (Unit {0}) × Bench W)
      : Type 0 where
    pub returns : result.0 ≡ ok tt
    pub status : SensorStatus
    pub found : lookup sensor.id result.1.shared.stats.sensors ≡ some status
    pub outcome : Succeeded W c sensor st b status result.1 ⊎ Failed st b status result.1
    pub others : OthersStay sensor.id b.shared.stats result.1.shared.stats
    pub tasks_same : result.1.tasks ≡ b.tasks
    pub done : result.1.unfinished_tasks ≡ b.unfinished_tasks - 1

  failed_lem :
      (st : SensorStatus) (b b1 : Bench W) (e : Exception)
      → lookup sensor.id b.shared.stats.sensors ≡ some st
      → Same b b1
      → Settled st b (let (r, b') = recover W c sensor (err e, b1) in (r, task_done W b'))
  unfolding recover
  failed_lem st b b1 e known same =
      rw (failure_found sensor.id b1.shared.stats known1 e now) (record {
        returns = refl;
        status = new;
        found = lookup-store_self sensor.id new b1.shared.stats;
        outcome = inr (record {
          error = e;
          time_ms = now;
          counted = refl;
          queue_same = ap (λ (s : Shared). s.queue) same.shared_same;
          accepted_same = ap (λ (s : Shared). s.stats.accepted_count) same.shared_same;
          reset = mem-discard sensor.id b1.initialized;
        });
        others =
            subst
              (λ (s : Shared). OthersStay sensor.id s.stats (store sensor.id new b1.shared.stats))
              same.shared_same (OthersStay-store sensor.id new b1.shared.stats);
        tasks_same = same.tasks_same;
        done = ap (λ n. n - 1) same.unfinished_same;
      })
    where
      now : ℕ
      now = now_ms W c b1.hardware

      new : SensorStatus
      new = after_failure e now st

      known1 : lookup sensor.id b1.shared.stats.sensors ≡ some st
      known1 = ap (λ (s : Shared). lookup sensor.id s.stats.sensors) same.shared_same ∙ known

  marked :
      {st status : SensorStatus} {b b' : Bench W}
      → Succeeded W c sensor st b status b'
      → Succeeded W c sensor st b status (task_done W b')
  marked s = record {
    driver = s.driver;
    listed = s.listed;
    start = s.start;
    reading = s.reading;
    read = s.read;
    valid = s.valid;
    submitted = s.submitted;
    handed = s.handed;
    counted = s.counted;
    ready = s.ready;
  }

  settle :
      (st : SensorStatus) (b : Bench W) (result : Result (Unit {0}) × Bench W)
      → lookup sensor.id b.shared.stats.sensors ≡ some st
      → MeasureEnd W c sensor st b result
      → Settled st b (let (r, b') = recover W c sensor result in (r, task_done W b'))
  unfolding recover
  settle st b (ok u, b') known m = record {
    returns = refl;
    status = m.status;
    found = m.found;
    outcome = inl (marked m.succeeded);
    others = m.others;
    tasks_same = m.tasks_same;
    done = ap (λ n. n - 1) m.unfinished_same;
  }
  settle st b (err e, b') known m = failed_lem st b b' e known m

  -- A task for a sensor with an entry never stops the worker and is marked as done. Either its sample
  -- was read, passed the tests and was handed to the queue, and one success is counted; or nothing was
  -- handed over, one failure is counted and the driver will be initialised again. Other sensors'
  -- entries stay.
  pub perform-Settled :
      (st : SensorStatus) (b : Bench W)
      → lookup sensor.id b.shared.stats.sensors ≡ some st
      → Settled st b (perform W c sensor b)
  unfolding perform
  perform-Settled st b known =
      settle st b (measure W c sensor b) known (measure_lem W c sensor st b known)
