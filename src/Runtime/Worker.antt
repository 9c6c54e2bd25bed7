-- ===== src/Runtime/Worker.antt =====
-- src/runtime/worker.py: the thread of one bus, which reads its sensors and submits the samples. The
-- clocks and the stop event are observations of the hardware state, which every call of a driver may
-- move on: so the stop event may come at any read. One task is one step for the statistics and the
-- queue.
pub mod Reads
pub mod Submit
pub mod Measure
pub mod Tasks
pub mod Steady
pub mod Drain
use sensorctl.Prelude.{
  ℕ, zero, suc, ◌+◌, ◌-◌, ◌/◌, String, Bool, true, false, not, ◌&&◌, ◌||◌, Option, none, some, List,
  [], ◌∷◌, ◌++◌, map, leb, if◌then◌else◌, str_eq, all, any, is_empty, Exception, Result, ok, err,
  raise, forbid, or_raise, key_error, value_error, assertion_error, length,
}
use sensorctl.Prelude.Dict.{Dict, lookup, insert, keys, values, mem}
use sensorctl.Prelude.Exec.{Exec, pure, lift, ◌>>=◌, ◌>>◌}
use sensorctl.Model.{Float, is_finite, FieldDefinition, Sample}
use sensorctl.Config.Sensor.{SensorConfig}
use sensorctl.Hardware.Driver.{SensorDriver, Transport}
use sensorctl.Runtime.Status.{success, failure}
use sensorctl.Runtime.Queue.{Shared, with_stats, submit}

pub record ReadTask : Type 0 where
  pub sensor : SensorConfig

-- The variables of one pass through the retry loop that reached its end.
pub record Reading : Type 0 where
  pub read_at : String
  pub monotonic_ms : ℕ
  pub values : Dict Float

-- `self._initialized.discard(sensor_id)`
unfoldable pub discard : String → List String → List String
discard k [] = []
discard k (j ∷ js) = let rest = discard k js in if str_eq j k then rest else j ∷ rest

abbrev pub subset : List String → List String → Bool
subset xs ys = all (λ k. mem k ys) xs

-- `set(xs) == set(ys)`
abbrev pub same_set : List String → List String → Bool
same_set xs ys = subset xs ys && subset ys xs

abbrev pub field_names : List FieldDefinition → List String
field_names = map (λ (definition : FieldDefinition). definition.name)

-- The two tests on what the driver returned.
unfoldable pub check_values : List FieldDefinition → Dict Float → Result (Unit {0})
check_values fields found =
    if same_set (keys found) (field_names fields)
    then (forbid (any (λ v. not (is_finite v)) (values found)) value_error
        "driver returned a non-finite value")
    else raise value_error "driver returned an unexpected field set"

-- One turn of the worker's loop: the tasks that arrive before `get` returns or times out, and what
-- the other threads do to the statistics and the queue before it.
pub record Turn : Type 0 where
  pub arrivals : List (Option ReadTask)
  pub others : Shared → Shared

-- How a turn ends.
pub data Outcome : Type 0 where
  breaks continues : Outcome

-- How the thread stands when the turns have passed: with `self.error` at its end.
pub data WorkerEnd : Type 0 where
  unfinished : WorkerEnd
  finished : Option Exception → WorkerEnd

module _ (W : Type 0) where
  -- What a worker is given. The three observations are the clocks and `self._stop_event.is_set()`.
  pub record Bus : Type 0 where
    pub transport : Transport W
    pub drivers : Dict (SensorDriver W)
    pub boot_id : String
    pub retries : ℕ
    pub monotonic_ns : W → ℕ
    pub local_now : W → String
    pub is_stopped : W → Bool
    pub wait : W → W

  pub record Bench : Type 0 where
    pub hardware : W
    pub shared : Shared
    pub tasks : List (Option ReadTask)
    pub unfinished_tasks : ℕ
    pub initialized : List String
    pub last_warning : Dict ℕ

  abbrev pub on_hardware {ℓ} : {A : Type ℓ} → Exec W A → Exec Bench A
  on_hardware m b = let (r, w) = m b.hardware in (r, record b { hardware = w })

  abbrev pub on_shared {ℓ} : {A : Type ℓ} → Exec Shared A → Exec Bench A
  on_shared m b = let (r, s) = m b.shared in (r, record b { shared = s })

  abbrev pub now_ms : Bus → W → ℕ
  now_ms c w = c.monotonic_ns w / 1_000_000

  -- `assert last_error is not None; raise last_error`
  abbrev pub give_up : Option Exception → Result Reading
  give_up none = raise assertion_error ""
  give_up (some last_error) = err last_error

  -- What follows a read that began in the given state: it ends the loop, or the rest goes on.
  abbrev pub after_read :
      Bus → W → Result (Dict Float) × W → (Option Exception → Exec W Reading) → Result Reading × W
  after_read c w (ok found, w') again =
      (ok (record { read_at = c.local_now w; monotonic_ms = now_ms c w; values = found }), w')
  after_read c w (err e, w') again = if c.is_stopped w' then (err e, w') else again (some e) w'

  -- The retry loop with the passes that are left, and what follows it if it found no values.
  unfoldable pub read_loop : Bus → SensorDriver W → ℕ → Option Exception → Exec W Reading
  read_loop c driver zero last_error w = (give_up last_error, w)
  read_loop c driver (suc n) last_error w = after_read c w (driver.read w) (read_loop c driver n)

  -- `if sensor.id not in initialized:`
  unfoldable pub ensure_initialized : SensorDriver W → String → Exec Bench (Unit {0})
  ensure_initialized driver k b =
      if mem k b.initialized
      then pure tt b
      else (on_hardware driver.initialize >> λ (b' : Bench).
            pure tt (record b' { initialized = k ∷ b'.initialized }))
          b

  abbrev pub sample_of : Bus → String → Reading → Sample
  sample_of c k reading = record {
    sensor_id = k;
    time = reading.read_at;
    monotonic_ms = reading.monotonic_ms;
    boot_id = c.boot_id;
    values = reading.values;
  }

  -- The body of the `try` for a task.
  unfoldable pub measure : Bus → SensorConfig → Exec Bench (Unit {0})
  measure c sensor = do
    driver ← lift (or_raise (lookup sensor.id c.drivers) key_error sensor.id)
    ensure_initialized driver sensor.id
    reading ← on_hardware (read_loop c driver (c.retries + 1) none)
    lift (check_values driver.fields reading.values)
    on_shared (submit (sample_of c sensor.id reading))
    _ ← on_shared (with_stats (success sensor.id reading.read_at))
    pure tt

  abbrev pub get_or_zero : Option ℕ → ℕ
  get_or_zero none = 0
  get_or_zero (some t) = t

  -- The warning at most once a minute.
  abbrev pub warn : String → ℕ → Dict ℕ → Dict ℕ
  warn k now last =
      if leb (get_or_zero (lookup k last) + 60_000_000_000) now then insert k now last else last

  -- `except Exception as error:`
  unfoldable pub recover :
      Bus → SensorConfig → Result (Unit {0}) × Bench → Result (Unit {0}) × Bench
  recover c sensor (ok u, b) = (ok u, b)
  recover c sensor (err e, b) =
      (on_shared (with_stats (failure sensor.id e (now_ms c b.hardware))) >> λ (b' : Bench).
      pure tt
        (record b' { last_warning = warn sensor.id (c.monotonic_ns b'.hardware) b'.last_warning }))
        (record b { initialized = discard sensor.id b.initialized })

  -- `self._tasks.task_done()`
  abbrev pub task_done : Bench → Bench
  task_done b = record b { unfinished_tasks = b.unfinished_tasks - 1 }

  unfoldable pub perform : Bus → SensorConfig → Exec Bench (Unit {0})
  unfolding measure recover
  perform c sensor b = let (r, b') = recover c sensor (measure c sensor b) in (r, task_done b')

  -- The puts of the collector and the steps of the other threads.
  abbrev pub arrive : Bus → Turn → Bench → Bench
  arrive c t b = record b {
    hardware = c.wait b.hardware;
    shared = t.others b.shared;
    tasks = b.tasks ++ t.arrivals;
    unfinished_tasks = b.unfinished_tasks + length t.arrivals;
  }

  unfoldable pub take : Bus → List (Option ReadTask) → Exec Bench Outcome
  unfolding perform
  take c [] b = pure continues b
  take c (none ∷ rest) b = pure breaks (task_done (record b { tasks = rest }))
  take c (some task ∷ rest) b =
      (perform c task.sensor >> pure continues) (record b { tasks = rest })

  unfoldable pub turn : Bus → Turn → Exec Bench Outcome
  unfolding take
  turn c t b =
      if c.is_stopped b.hardware && is_empty b.tasks
      then pure breaks b
      else (let b' = arrive c t b in take c b'.tasks b')

  continue : Result Outcome × Bench → Exec Bench Outcome → Result Outcome × Bench
  continue (ok breaks, b) rest = (ok breaks, b)
  continue (ok continues, b) rest = rest b
  continue (err e, b) rest = (err e, b)

  -- The loop, for as long as the turns last.
  unfoldable pub loop : Bus → List Turn → Exec Bench Outcome
  unfolding turn continue
  loop c [] b = pure continues b
  loop c (t ∷ ts) b = continue (turn c t b) (loop c ts)

  -- `try: ... except Exception as error: self.error = error`
  abbrev pub note_error : Option Exception → Result (Unit {0}) × W → Option Exception × W
  note_error error (ok u, w) = (error, w)
  note_error error (err e, w) = (some e, w)

  unfoldable pub close_drivers : List (SensorDriver W) → Option Exception × W → Option Exception × W
  close_drivers [] state = state
  close_drivers (driver ∷ drivers) (error, w) =
      close_drivers drivers (note_error error (driver.close w))

  -- The outer `except` and `finally`.
  unfoldable pub clean_up : Bus → Option Exception → Bench → WorkerEnd × Bench
  unfolding close_drivers
  clean_up c error b =
      let (closing_error, w) = close_drivers (values c.drivers) (error, b.hardware) in
      let (last_error, w') = note_error closing_error (c.transport.close_device w) in
      (finished last_error, record b { hardware = w' })

  unfoldable pub leave : Bus → Result Outcome × Bench → WorkerEnd × Bench
  unfolding clean_up
  leave c (ok breaks, b) = clean_up c none b
  leave c (ok continues, b) = (unfinished, b)
  leave c (err e, b) = clean_up c (some e) b

  unfoldable pub run : Bus → List Turn → Bench → WorkerEnd × Bench
  unfolding loop leave
  run c turns b = leave c ((on_hardware c.transport.open_device >> loop c turns) b)
