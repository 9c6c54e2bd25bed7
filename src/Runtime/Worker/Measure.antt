-- ===== src/Runtime/Worker/Measure.antt =====
-- The body of the `try` of one task of src/runtime/worker.py.
use sensorctl.Prelude.{
  ◌+◌, ◌≡◌, refl, ap, subst, ◌∙◌, String, true, none, some, List, arith, if-cases, eq_refl, Result,
  ok, err, or_raise, or_raise-eq-ok, key_error,
}
use sensorctl.Prelude.Dict.{lookup, mem}
use sensorctl.Prelude.Exec.{pure, lift, ◌>>=◌, ◌>>◌, >>=-cases}
use sensorctl.Model.{Sample}
use sensorctl.Config.Sensor.{SensorConfig}
use sensorctl.Hardware.Driver.{SensorDriver}
use sensorctl.Runtime.Status.{SensorStatus, success}
use sensorctl.Runtime.Status.Methods.{after_success, success_found, lookup-store_self}
use sensorctl.Runtime.Queue.{Shared, with_stats, submit}
use sensorctl.Runtime.Worker.{
  Bus, Bench, Reading, check_values, on_hardware, on_shared, read_loop, ensure_initialized,
  sample_of, measure,
}
use sensorctl.Runtime.Worker.Submit.{
  OthersStay, OthersStay-store, Handed, Submitted, submit-Submitted,
}

-- The parts of the worker's state that a step on the hardware leaves alone.
pub record Same {W : Type 0} (b b' : Bench W) : Type 0 where
  pub shared_same : b'.shared ≡ b.shared
  pub tasks_same : b'.tasks ≡ b.tasks
  pub unfinished_same : b'.unfinished_tasks ≡ b.unfinished_tasks

module _ (W : Type 0) (c : Bus W) (sensor : SensorConfig) where
  -- What a task that succeeds leaves: a sample whose values passed the tests is handed over.
  pub record Succeeded (st : SensorStatus) (b : Bench W) (status : SensorStatus) (b' : Bench W)
      : Type 0 where
    pub driver : SensorDriver W
    pub listed : lookup sensor.id c.drivers ≡ some driver
    pub start : W
    pub reading : Reading
    pub read : (read_loop W c driver (c.retries + 1) none start).0 ≡ ok reading
    pub valid : check_values driver.fields reading.values ≡ ok tt
    pub submitted : SensorStatus
    pub handed : Handed (sample_of W c sensor.id reading) st b.shared submitted b'.shared
    pub counted : status ≡ after_success reading.read_at submitted
    pub ready : mem sensor.id b'.initialized ≡ true

  -- The state of the worker after the body of the `try`.
  pub record Measured (st : SensorStatus) (b b' : Bench W) : Type 0 where
    pub status : SensorStatus
    pub found : lookup sensor.id b'.shared.stats.sensors ≡ some status
    pub others : OthersStay sensor.id b.shared.stats b'.shared.stats
    pub tasks_same : b'.tasks ≡ b.tasks
    pub unfinished_same : b'.unfinished_tasks ≡ b.unfinished_tasks
    pub succeeded : Succeeded st b status b'

  abbrev pub MeasureEnd : SensorStatus → Bench W → Result (Unit {0}) × Bench W → Type 0
  MeasureEnd st b (ok u, b') = Measured st b b'
  MeasureEnd st b (err e, b') = Same b b'

  ensure-Same :
      (driver : SensorDriver W) (b : Bench W) → Same b (ensure_initialized W driver sensor.id b).1
  unfolding ensure_initialized
  ensure-Same driver b =
      if-cases (λ (r : Result (Unit {0}) × Bench W). Same b r.1) (mem sensor.id b.initialized) _ _
        (λ _. same)
        (λ _.
          >>=-cases (λ (r : Result (Unit {0}) × Bench W). Same b r.1)
            (on_hardware W driver.initialize) _ b (λ _ _. same) (λ _ _. same))
    where
      same : {w : W} {l : List String} → Same b (record b { hardware = w; initialized = l })
      same = record { shared_same = refl; tasks_same = refl; unfinished_same = refl }

  ensure-mem :
      (driver : SensorDriver W) (b : Bench W) (u : Unit {0})
      → (ensure_initialized W driver sensor.id b).0 ≡ ok u
      → mem sensor.id (ensure_initialized W driver sensor.id b).1.initialized ≡ true
  unfolding ensure_initialized mem
  ensure-mem driver b u =
      if-cases P (mem sensor.id b.initialized) (ok tt, b) _ (λ h _. h)
        (λ _.
          >>=-cases P (on_hardware W driver.initialize) _ b
            (λ _ _ _. ground (arith, eq_refl sensor.id)) (λ e _ h. cc))
    where
      P : Result (Unit {0}) × Bench W → Type 0
      P r = r.0 ≡ ok u → mem sensor.id r.1.initialized ≡ true

  finish :
      (driver : SensorDriver W) (st : SensorStatus) (b b' : Bench W) (reading : Reading) (w : W)
      → lookup sensor.id c.drivers ≡ some driver
      → lookup sensor.id b.shared.stats.sensors ≡ some st
      → Same b b'
      → mem sensor.id b'.initialized ≡ true
      → (read_loop W c driver (c.retries + 1) none w).0 ≡ ok reading
      → check_values driver.fields reading.values ≡ ok tt
      → MeasureEnd st b (
          (on_shared W (submit (sample_of W c sensor.id reading))
              >> (on_shared W (with_stats (success sensor.id reading.read_at)) >>= λ _. pure tt))
            b')
  finish driver st b b' reading w listed known same ready read valid =
      >>=-cases (MeasureEnd st b) (on_shared W (submit x)) _ b'
        (λ _ _.
          >>=-cases (MeasureEnd st b) (on_shared W (with_stats (success sensor.id reading.read_at)))
            _ b1 (λ _ _. measured)
            (λ e raised. cc (success_found sensor.id s1.stats sub.found reading.read_at)))
        (λ e raised. cc (sub.returns))
    where
      x : Sample
      x = sample_of W c sensor.id reading

      sub : Submitted x st b'.shared (submit x b'.shared)
      sub =
          submit-Submitted x st b'.shared
            (ap (λ (s : Shared). lookup sensor.id s.stats.sensors) same.shared_same ∙ known)

      s1 : Shared
      s1 = (submit x b'.shared).1

      b1 : Bench W
      b1 = record b' { shared = s1 }

      others_stay : OthersStay sensor.id b.shared.stats s1.stats
      others_stay =
          subst (λ (s : Shared). OthersStay sensor.id s.stats s1.stats) same.shared_same sub.others

      handed : Handed x st b.shared sub.status s1
      handed = subst (λ s. Handed x st s sub.status s1) same.shared_same sub.handed

      measured :
          Measured st b
            (record b1 { shared = (with_stats (success sensor.id reading.read_at) s1).1 })
      measured = rw (success_found sensor.id s1.stats sub.found reading.read_at) (record {
        status = after_success reading.read_at sub.status;
        found = lookup-store_self sensor.id (after_success reading.read_at sub.status) s1.stats;
        others = λ j h.
            OthersStay-store sensor.id (after_success reading.read_at sub.status) s1.stats j h
            ∙ others_stay j h;
        tasks_same = same.tasks_same;
        unfinished_same = same.unfinished_same;
        succeeded = record {
          driver = driver;
          listed = listed;
          start = w;
          reading = reading;
          read = read;
          valid = valid;
          submitted = sub.status;
          handed = handed;
          counted = refl;
          ready = ready;
        };
      })

  pub measure_lem :
      (st : SensorStatus) (b : Bench W)
      → lookup sensor.id b.shared.stats.sensors ≡ some st
      → MeasureEnd st b (measure W c sensor b)
  unfolding measure
  measure_lem st b known =
      >>=-cases (MeasureEnd st b) (lift (or_raise (lookup sensor.id c.drivers) key_error sensor.id))
        _ b
        (λ driver listed.
          let same = ensure-Same driver b in
          let b1 = (ensure_initialized W driver sensor.id b).1 in
          >>=-cases (MeasureEnd st b) (ensure_initialized W driver sensor.id) _ b
            (λ u made.
              >>=-cases (MeasureEnd st b)
                (on_hardware W (read_loop W c driver (c.retries + 1) none)) _ b1
                (λ reading read.
                  let b2 = (on_hardware W (read_loop W c driver (c.retries + 1) none) b1).1 in
                  >>=-cases (MeasureEnd st b) (lift (check_values driver.fields reading.values)) _
                    b2
                    (λ _ valid.
                      finish driver st b b2 reading b1.hardware
                        (or_raise-eq-ok (lookup sensor.id c.drivers) key_error sensor.id listed)
                        known (moved same) (ensure-mem driver b u made) read valid)
                    (λ e _. moved same))
                (λ e _. moved same))
            (λ e _. same))
        (λ e _. record { shared_same = refl; tasks_same = refl; unfinished_same = refl })
    where
      moved : {b' : Bench W} {w : W} → Same b b' → Same b (record b' { hardware = w })
      moved same = record {
        shared_same = same.shared_same;
        tasks_same = same.tasks_same;
        unfinished_same = same.unfinished_same;
      }
