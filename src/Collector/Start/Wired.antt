-- ===== src/Collector/Start/Wired.antt =====
-- How the parts that src/collector.py starts with fit together.
use sensorctl.Prelude.{
  ℕ, ◌≡◌, subst, ap, ◌∙◌, Option, arith, ◌⊎◌, String, false, some, List, [], ◌∷◌, All, All-imp,
  is_empty, str_eq, eq_refl, Bool-cases, inl, inr, Result, ok, forbid, runtime_error, ◌>>=◌,
  >>=-eq-ok, >>-eq-ok,
}
use sensorctl.Prelude.Dict.{Dict, lookup, keys, mem}
use sensorctl.Config.Bus.{BusConfig}
use sensorctl.Config.Sensor.{SensorConfig}
use sensorctl.Config.Load.{AppConfig}
use sensorctl.Hardware.Driver.{Transport}
use sensorctl.Hardware.Registry.{PreparedDrivers}
use sensorctl.Runtime.Status.{fresh_status, fresh_sensors, init}
use sensorctl.Runtime.Queue.{new_queue}
use sensorctl.Runtime.Worker.{Bus, ReadTask}
use sensorctl.Collector.Schedule.{intervals_of}
use sensorctl.Collector.Start.{
  empty_queues, first_deadlines, Surroundings, Setup, make_workers, sensor_ids, set_up,
}
use sensorctl.Collector.Start.Entries.{
  empty_queues_lem, empty_queues-empty, first_deadlines_lem, intervals_of_lem, fresh_sensors_lem,
  mem-keys,
}
use sensorctl.Collector.Start.Workers.{Own, bus_drivers_lem, make_workers_lem, make_worker-drivers}

every : {A : Type 0} (P : A → Type 0) → ((x : A) → P x) → (xs : List A) → All P xs
every P f [] = tt
every P f (x ∷ xs) = (f x, every P f xs)

-- What holds of every sensor for each bus holds of each for its own.
at_own_bus :
    (Q : String → SensorConfig → Type 0) (sensors : List SensorConfig)
    → ((k : String) → All (Q k) sensors)
    → All (λ (s : SensorConfig). Q s.bus s) sensors
at_own_bus Q [] h = tt
at_own_bus Q (s ∷ sensors) h = ((h s.bus).0, at_own_bus Q sensors (λ k. (h k).1))

both_all :
    {A : Type 0} (P Q : A → Type 0) (xs : List A) → All P xs → All Q xs → All (λ x. P x × Q x) xs
both_all P Q [] h k = tt
both_all P Q (x ∷ xs) h k = ((h.0, k.0), both_all P Q xs h.1 k.1)

module _ (W : Type 0) (create_transport : BusConfig → Result (Transport W))
    (around : Surroundings W) (config : AppConfig) (prepared : PreparedDrivers W)
    (boot_id : String) where
  -- A sensor has its first deadline, an interval, an idle status, an empty queue for its bus, and on
  -- the worker of its bus the driver that was prepared for it.
  pub record IsWired (now : String → ℕ) (u : Setup W) (s : SensorConfig) : Type 0 where
    pub deadline : lookup s.id u.scheduler.deadlines ≡ some (now s.id)
    pub interval : (i : ℕ) × (lookup s.id u.intervals ≡ some i)
    pub idle : lookup s.id u.scheduler.stats.sensors ≡ some fresh_status
    pub queue : lookup s.bus u.scheduler.bus_tasks ≡ some []
    pub worker :
        (w : Bus W) × (lookup s.bus u.workers ≡ some w)
        × Own W create_transport around config prepared boot_id w.drivers s.id

  abbrev setup_with : (String → ℕ) → String → Dict (Bus W) → Setup W
  setup_with now started_at workers = record {
    scheduler = record {
      deadlines = first_deadlines now prepared.sensors [];
      stats = init (sensor_ids prepared.sensors) started_at;
      bus_tasks = empty_queues prepared.sensors [];
    };
    intervals = intervals_of prepared.sensors [];
    workers = workers;
    results = new_queue config.collector.queue_size;
  }

  -- The worker of a bus that has a queue.
  abbrev Served : Dict (Bus W) → List String → String → SensorConfig → Type 0
  Served workers ids k s =
      (mem k ids ≡ false)
      ⊎ ((w : Bus W) × (lookup k workers ≡ some w)
          × ((str_eq s.bus k ≡ false)
              ⊎ Own W create_transport around config prepared boot_id w.drivers s.id))

  served_lem :
      (ids : List String) (workers : Dict (Bus W))
      → make_workers W create_transport around config prepared boot_id ids ≡ ok workers
      → (k : String) → All (Served workers ids k) prepared.sensors
  served_lem ids workers h k = elim (Bool-cases (mem k ids)) [
    | inl there ↦
        let (w, found, made) =
          make_workers_lem W create_transport around config prepared boot_id ids workers k h
            there in
        All-imp
          (λ s.
            (str_eq s.bus k ≡ false)
            ⊎ Own W create_transport around config prepared boot_id w.drivers s.id)
          (Served workers ids k) prepared.sensors (λ s x. inr (w, found, x))
          (bus_drivers_lem W create_transport around config prepared boot_id k prepared.sensors []
            w.drivers
            (make_worker-drivers W create_transport around config prepared boot_id k w made))
    | inr absent ↦ every (Served workers ids k) (λ s. inl absent) prepared.sensors
  ]

  abbrev Parts : (String → ℕ) → Dict (Bus W) → SensorConfig → Type 0
  Parts now workers s =
      (((lookup s.id (first_deadlines now prepared.sensors []) ≡ some (now s.id))
          × ((i : ℕ) × (lookup s.id (intervals_of prepared.sensors []) ≡ some i)))
        × (lookup s.id (fresh_sensors (sensor_ids prepared.sensors) []) ≡ some fresh_status))
      × ((lookup s.bus (empty_queues prepared.sensors []) ≡ some [])
          × Served workers (keys (empty_queues prepared.sensors [])) s.bus s)

  Parts-IsWired :
      (now : String → ℕ) (started_at : String) (workers : Dict (Bus W)) (s : SensorConfig)
      → Parts now workers s
      → IsWired now (setup_with now started_at workers) s
  unfolding init
  Parts-IsWired now started_at workers s (((deadline, interval), idle), (queue, inl absent)) =
      let there = mem-keys s.bus [] (empty_queues prepared.sensors []) queue in
      absurd (ground (arith, absent, there))
  Parts-IsWired now started_at workers s
        (((deadline, interval), idle), (queue, inr (w, found, inl elsewhere))) =
      let same = eq_refl s.bus in absurd (ground (arith, elsewhere, same))
  Parts-IsWired now started_at workers s
        (((deadline, interval), idle), (queue, inr (w, found, inr own))) =
      record {
        deadline = deadline;
        interval = interval;
        idle = idle;
        queue = queue;
        worker = (w, found, own);
      }

  wired :
      (now : String → ℕ) (started_at : String) (workers : Dict (Bus W))
      → make_workers W create_transport around config prepared boot_id
          (keys (empty_queues prepared.sensors []))
        ≡ ok workers
      → All (IsWired now (setup_with now started_at workers)) prepared.sensors
  wired now started_at workers made =
      let sensors = prepared.sensors in
      let queues = empty_queues sensors [] in
      All-imp (Parts now workers) (IsWired now (setup_with now started_at workers)) sensors
        (Parts-IsWired now started_at workers)
        (both_all _ _ sensors
          (both_all _ _ sensors
            (both_all _ _ sensors (first_deadlines_lem now sensors [])
              (intervals_of_lem sensors []))
            (fresh_sensors_lem sensors []))
          (both_all _ _ sensors (empty_queues_lem sensors []) (
            at_own_bus (Served workers (keys queues)) sensors
              (served_lem (keys queues) workers made))))

  -- A set-up that succeeds is one with workers that were made.
  set_up-setup_with :
      (started_at : String) (now : String → ℕ) (u : Setup W)
      → set_up W create_transport around config prepared boot_id started_at now ≡ ok u
      → (workers : Dict (Bus W)) × (make_workers W create_transport around config prepared boot_id
            (keys (empty_queues prepared.sensors []))
          ≡ ok workers)
        × (setup_with now started_at workers ≡ u)
  unfolding set_up
  set_up-setup_with started_at now u h =
      let (some_sensor, rest) =
        >>-eq-ok
          (forbid (is_empty prepared.sensors) runtime_error
            "at least one enabled sensor is required")
          (make_workers W create_transport around config prepared boot_id
              (keys (empty_queues prepared.sensors []))
            >>= λ workers. ok (setup_with now started_at workers))
          h in
      let (workers, made, whole) =
        >>=-eq-ok
          (make_workers W create_transport around config prepared boot_id
            (keys (empty_queues prepared.sensors [])))
          (λ workers. ok (setup_with now started_at workers)) rest in
      (workers, made, cc)

  -- No queue has a task.
  pub set_up-empty :
      (started_at : String) (now : String → ℕ) (u : Setup W)
      → set_up W create_transport around config prepared boot_id started_at now ≡ ok u
      → (k : String) (l : List (Option ReadTask)) → lookup k u.scheduler.bus_tasks ≡ some l
      → l ≡ []
  unfolding lookup
  set_up-empty started_at now u h k l found =
      let (workers, made, same) = set_up-setup_with started_at now u h in
      empty_queues-empty prepared.sensors k [] l (λ m e. cc)
        (ap (λ (v : Setup W). lookup k v.scheduler.bus_tasks) same ∙ found)

  -- A set-up that succeeds gives each enabled sensor what the loop and the worker of its bus look up by
  -- its id and its bus: its first deadline, an interval, an idle status, an empty queue, and on that
  -- worker the driver that was prepared for this sensor.
  pub set_up-IsWired :
      (started_at : String) (now : String → ℕ) (u : Setup W)
      → set_up W create_transport around config prepared boot_id started_at now ≡ ok u
      → All (IsWired now u) prepared.sensors
  set_up-IsWired started_at now u h =
      let (workers, made, same) = set_up-setup_with started_at now u h in
      subst (λ v. All (IsWired now v) prepared.sensors) same (wired now started_at workers made)
