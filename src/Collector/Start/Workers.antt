-- ===== src/Collector/Start/Workers.antt =====
-- The workers that src/collector.py starts.
use sensorctl.Prelude.{
  ◌≡◌, ap, sym, subst, ◌∙◌, arith, ◌⊎◌, String, true, false, some, List, [], ◌∷◌, All, str_eq,
  eq_iff, Bool-cases, inl, inr, if◌then◌else◌, Result, ok, or_raise, or_raise-eq-ok, key_error,
  ◌>>=◌, >>=-eq-ok,
}
use sensorctl.Prelude.Dict.{Dict, lookup, insert, mem, lookup-insert}
use sensorctl.Config.Bus.{BusConfig}
use sensorctl.Config.Sensor.{SensorConfig}
use sensorctl.Config.Load.{AppConfig}
use sensorctl.Hardware.Driver.{SensorDriver, Transport}
use sensorctl.Hardware.Registry.{PreparedDrivers}
use sensorctl.Runtime.Worker.{Bus}
use sensorctl.Collector.Start.{Surroundings, bus_drivers, make_worker, make_workers, worker_of}
use sensorctl.Prelude.Dict.{insert_here}

module _ (W : Type 0) (create_transport : BusConfig → Result (Transport W))
    (around : Surroundings W) (config : AppConfig) (prepared : PreparedDrivers W)
    (boot_id : String) where
  abbrev pub make : String → Result (Bus W)
  make = make_worker W create_transport around config prepared boot_id

  pub make_workers_lem :
      (ids : List String) (workers : Dict (Bus W)) (k : String)
      → make_workers W create_transport around config prepared boot_id ids ≡ ok workers
      → mem k ids ≡ true
      → (w : Bus W) × (lookup k workers ≡ some w) × (make k ≡ ok w)
  unfolding make_workers lookup mem
  make_workers_lem [] workers k h there = cc
  make_workers_lem (i ∷ ids) workers k h there =
      let next = λ (w : Bus W).
        make_workers W create_transport around config prepared boot_id ids >>= λ ws.
        ok ((i, w) ∷ ws) in
      let (w, made, rest) = >>=-eq-ok (make i) next h in
      let (ws, all_made, whole) =
        >>=-eq-ok (make_workers W create_transport around config prepared boot_id ids)
          (λ ws. ok ((i, w) ∷ ws)) rest in
      let same : ((i, w) ∷ ws) ≡ workers = cc in
      subst (λ d. (v : Bus W) × (lookup k d ≡ some v) × (make k ≡ ok v)) same
        (elim (Bool-cases (str_eq i k)) [
          | inl here ↦
              (w, ground (arith, here), subst (λ j. make j ≡ ok w) ((eq_iff i k).0 here) made)
          | inr other ↦
              let (v, found, made') =
                make_workers_lem ids ws k all_made (ground (arith, there, other)) in
              (v, ground (arith, other, found), made')
        ])

  -- The driver of a sensor in the dict of its bus is its own.
  abbrev pub Own : Dict (SensorDriver W) → String → Type 0
  Own d k =
      (driver : SensorDriver W) × (lookup k d ≡ some driver)
      × (lookup k prepared.by_sensor_id ≡ some driver)

  Own-insert :
      (i k : String) (driver : SensorDriver W) (d : Dict (SensorDriver W))
      → lookup i prepared.by_sensor_id ≡ some driver
      → Own d k
      → Own (insert i driver d) k
  Own-insert i k driver d its (other, found, own) = elim (Bool-cases (str_eq i k)) [
    | inl same ↦ (
      driver,
      ground (arith, lookup-insert i k driver d, same),
      subst (λ j. lookup j prepared.by_sensor_id ≡ some driver) ((eq_iff i k).0 same) its,
    )
    | inr apart ↦ (other, ground (arith, lookup-insert i k driver d, apart, found), own)
  ]

  abbrev pub collect_drivers :
      String → List SensorConfig → Dict (SensorDriver W) → Result (Dict (SensorDriver W))
  collect_drivers = bus_drivers W create_transport around prepared.by_sensor_id

  -- One pass of the comprehension over a sensor of the bus.
  next_drivers :
      String
      → SensorConfig
      → List SensorConfig
      → Dict (SensorDriver W)
      → SensorDriver W
      → Result (Dict (SensorDriver W))
  next_drivers bus_id s sensors d driver = collect_drivers bus_id sensors (insert s.id driver d)

  pass_here :
      (bus_id : String) (s : SensorConfig) (sensors : List SensorConfig)
      (d u : Dict (SensorDriver W))
      → str_eq s.bus bus_id ≡ true
      → collect_drivers bus_id (s ∷ sensors) d ≡ ok u
      → (driver : SensorDriver W) × (lookup s.id prepared.by_sensor_id ≡ some driver)
        × (collect_drivers bus_id sensors (insert s.id driver d) ≡ ok u)
  unfolding bus_drivers next_drivers
  pass_here bus_id s sensors d u here h =
      let first = or_raise (lookup s.id prepared.by_sensor_id) key_error s.id in
      let pass =
        ap
          (λ b.
            if b
            then (first >>= next_drivers bus_id s sensors d)
            else collect_drivers bus_id sensors d)
          (sym here) in
      let (driver, found, rest) = >>=-eq-ok first (next_drivers bus_id s sensors d) (pass ∙ h) in
      (driver, or_raise-eq-ok (lookup s.id prepared.by_sensor_id) key_error s.id found, rest)

  bus_drivers-Own :
      (bus_id : String) (sensors : List SensorConfig) (d u : Dict (SensorDriver W)) (k : String)
      → collect_drivers bus_id sensors d ≡ ok u
      → Own d k
      → Own u k
  unfolding bus_drivers
  bus_drivers-Own bus_id [] d u k h own = subst (λ x. Own x k) (cc) own
  bus_drivers-Own bus_id (s ∷ sensors) d u k h own = elim (Bool-cases (str_eq s.bus bus_id)) [
    | inl here ↦
        let (driver, its, rest) = pass_here bus_id s sensors d u here h in
        bus_drivers-Own bus_id sensors (insert s.id driver d) u k rest
          (Own-insert s.id k driver d its own)
    | inr other ↦ bus_drivers-Own bus_id sensors d u k (ground (arith, other, h)) own
  ]

  -- Every sensor of the bus.
  pub bus_drivers_lem :
      (bus_id : String) (sensors : List SensorConfig) (d u : Dict (SensorDriver W))
      → collect_drivers bus_id sensors d ≡ ok u
      → All (λ (s : SensorConfig). (str_eq s.bus bus_id ≡ false) ⊎ Own u s.id) sensors
  unfolding bus_drivers
  bus_drivers_lem bus_id [] d u h = tt
  bus_drivers_lem bus_id (s ∷ sensors) d u h = elim (Bool-cases (str_eq s.bus bus_id)) [
    | inl here ↦
        let (driver, its, rest) = pass_here bus_id s sensors d u here h in
        (
          inr (
              bus_drivers-Own bus_id sensors (insert s.id driver d) u s.id rest
                (driver, insert_here s.id driver d, its)),
          bus_drivers_lem bus_id sensors (insert s.id driver d) u rest,
        )
    | inr other ↦ (inl other, bus_drivers_lem bus_id sensors d u (ground (arith, other, h)))
  ]

  pub make_worker-drivers :
      (bus_id : String) (w : Bus W)
      → make bus_id ≡ ok w
      → collect_drivers bus_id prepared.sensors [] ≡ ok w.drivers
  unfolding make_worker
  make_worker-drivers bus_id w h =
      let find_bus = or_raise (lookup bus_id config.buses) key_error bus_id in
      let with_bus = λ (ds : Dict (SensorDriver W)) (bus : BusConfig).
        create_transport bus >>= λ transport.
        ok (worker_of W create_transport around boot_id ds bus transport) in
      let (ds, drivers, r1) =
        >>=-eq-ok (collect_drivers bus_id prepared.sensors []) (λ ds. find_bus >>= with_bus ds) h in
      let (bus, _, r2) = >>=-eq-ok find_bus (with_bus ds) r1 in
      let (transport, _, r3) =
        >>=-eq-ok (create_transport bus)
          (λ transport. ok (worker_of W create_transport around boot_id ds bus transport)) r2 in
      let same : worker_of W create_transport around boot_id ds bus transport ≡ w = cc in
      drivers ∙ ap (λ (v : Bus W). ok v.drivers) same
