-- ===== src/Hardware/Registry/Prepared.antt =====
-- What src/hw/drivers/registry.py prepares from a loaded configuration.
use mathlib.Core.List.{append_assoc, append-nil}
use sensorctl.Prelude.{
  ℕ, ◌≡◌, refl, sym, ◌∙◌, String, Bool, true, false, not, ◌||◌, some, List, [], ◌∷◌, ◌++◌, arith,
  ◌==◌, length, any, all, is_empty, if◌then◌else◌, eq_iff, eq_refl, str_eq, All, IsIn, Result,
  Exception, ok, err, subst, inl, inr, or_raise-cases, forbid, config_error, key_error, ◌>>◌,
}
use sensorctl.Prelude.Dict.{Dict, lookup, insert, lookup-insert, mem}
use sensorctl.Config.Bus.{BusConfig, bus_type_text}
use sensorctl.Config.Sensor.{SensorConfig}
use sensorctl.Config.Paths.{FilePath}
use sensorctl.Config.Collisions.Topology.{is_topology, placed}
use sensorctl.Config.Load.{AppConfig, Source, load_config}
use sensorctl.Config.Load.Rules.{Loads, Loads-require, Loads-forbid}
use sensorctl.Config.Load.Checked.{load_config-IsConfig}
use sensorctl.Hardware.Driver.{SensorDriver}
use sensorctl.Hardware.Registry.{
  set_size, names_of, is_unnamed, Factories, PreparedDrivers, create, check_driver, make_driver,
  keep, prepare_all, prepare,
}
use sensorctl.Hardware.Registry.Unique.{all_differ, set_size_full, Distinct, apart-Distinct}
use sensorctl.Hardware.Registry.Refusals.{
  Refused, Prepares, Prepares-bind, Loads-Prepares, Prepares-map, create_lem,
}

last_forbid :
    (C : Type 0) (test : Bool) (m : String)
    → (test ≡ false → C)
    → Loads (λ (u : Unit {0}). C) (forbid test config_error m)
last_forbid C true m f = refl
last_forbid C false m f = f refl

Loads-then {ℓ} :
    {A : Type ℓ} (R : A → Type 0) (C : Type 0) (r : Result (Unit {0})) (next : Result A)
    → (C → Loads R next)
    → Loads (λ (u : Unit {0}). C) r
    → Loads R (r >> next)
Loads-then R C (ok u) next f h = f h
Loads-then R C (err e) next f h = h

abbrev pub enabled_of : List SensorConfig → List SensorConfig
enabled_of [] = []
enabled_of (s ∷ sensors) = if s.enabled then s ∷ enabled_of sensors else enabled_of sensors

module _ (W : Type 0) (factories : Factories W) where
  -- A driver that its factory made for the sensor and that passed every test.
  pub record Fits (buses : Dict BusConfig) (s : SensorConfig) (driver : SensorDriver W)
      : Type 0 where
    pub made : create W factories s ≡ ok driver
    pub bus : BusConfig
    pub on_bus : lookup s.bus buses ≡ some bus
    pub supported : mem (bus_type_text bus.bus_type) driver.supported_bus_types ≡ true
    pub some_field : is_empty (names_of driver.fields) ≡ false
    pub differ : all_differ (names_of driver.fields) ≡ true
    pub named : any is_unnamed driver.fields ≡ false

  -- What the tests on a driver establish.
  abbrev Tested : BusConfig → SensorDriver W → Type 0
  Tested bus driver =
      (mem (bus_type_text bus.bus_type) driver.supported_bus_types ≡ true)
      × (is_empty (names_of driver.fields) ≡ false)
      × (all_differ (names_of driver.fields) ≡ true)
      × (any is_unnamed driver.fields ≡ false)

  check_driver_tests :
      (s : SensorConfig) (bus : BusConfig) (driver : SensorDriver W)
      → Loads (λ (u : Unit {0}). Tested bus driver) (check_driver W s bus driver)
  unfolding check_driver
  check_driver_tests s bus driver =
      Loads-require (λ (u : Unit {0}). Tested bus driver)
        (mem (bus_type_text bus.bus_type) driver.supported_bus_types) _ _
        λ supported.
          Loads-forbid (λ (u : Unit {0}). Tested bus driver)
            (is_empty names || not (length names == set_size names)) _ _
            λ proper. last_forbid (Tested bus driver) (any is_unnamed driver.fields) _ λ named. (
              supported,
              ground (arith, proper),
              set_size_full names (ground (arith, proper)),
              named,
            )
    where
      names : List String
      names = names_of driver.fields

  check_driver_lem :
      (buses : Dict BusConfig) (s : SensorConfig) (bus : BusConfig) (driver : SensorDriver W)
      → create W factories s ≡ ok driver
      → lookup s.bus buses ≡ some bus
      → Loads (Fits buses s) (check_driver W s bus driver >> ok driver)
  check_driver_lem buses s bus driver made on_bus =
      Loads-then (Fits buses s) (Tested bus driver) (check_driver W s bus driver) (ok driver)
        (λ t. record {
          made = made;
          bus = bus;
          on_bus = on_bus;
          supported = t.0;
          some_field = t.1;
          differ = t.2;
          named = t.3;
        })
        (check_driver_tests s bus driver)

  make_driver_lem :
      (buses : Dict BusConfig) (s : SensorConfig)
      → placed buses s ≡ true
      → Prepares W factories (s ∷ []) (Fits buses s) (make_driver W factories buses s)
  unfolding make_driver
  make_driver_lem buses s fit =
      Prepares-bind W factories (s ∷ []) (λ d. create W factories s ≡ ok d) (Fits buses s)
        (create W factories s) _ (create_lem W factories s)
        λ driver made. Loads-Prepares W factories (s ∷ []) (Fits buses s) _ (
          or_raise-cases (Loads (Fits buses s)) key_error _ (lookup s.bus buses) _
            (λ missing. absurd (ground (arith, fit, missing)))
            (λ bus on_bus. check_driver_lem buses s bus driver made on_bus))

  -- What the loop adds to `p` for the sensors that are left.
  record Extends (buses : Dict BusConfig) (enabled sensors : List SensorConfig)
      (p q : PreparedDrivers W) : Type 0 where
    listed : q.sensors ≡ p.sensors ++ enabled
    fitted :
        All
          (λ (s : SensorConfig).
            (d : SensorDriver W) × (lookup s.id q.by_sensor_id ≡ some d) × Fits buses s d)
          enabled
    kept :
        (k : String)
        → all (λ (t : SensorConfig). not (str_eq k t.id)) sensors ≡ true
        → lookup k q.by_sensor_id ≡ lookup k p.by_sensor_id

  extend :
      (buses : Dict BusConfig) (enabled : Bool) (s : SensorConfig) (l sensors : List SensorConfig)
      (driver : SensorDriver W) (p q : PreparedDrivers W)
      → Fits buses s driver
      → all (λ (t : SensorConfig). not (str_eq s.id t.id)) sensors ≡ true
      → Extends buses l sensors
          (if enabled
            then (record {
              sensors = p.sensors ++ s ∷ [];
              by_sensor_id = insert s.id driver p.by_sensor_id;
            })
            else p)
          q
      → Extends buses (if enabled then s ∷ l else l) (s ∷ sensors) p q
  extend buses true s l sensors driver p q fits apart_ids x = record {
    listed = x.listed ∙ append_assoc p.sensors (s ∷ []) l;
    fitted = (
      (
        driver,
        ground (
          arith,
          x.kept s.id apart_ids,
          lookup-insert s.id s.id driver p.by_sensor_id,
          eq_refl s.id,
        ),
        fits,
      ),
      x.fitted,
    );
    kept = λ k h. ground (
      arith,
      x.kept k (ground (arith, h)),
      lookup-insert s.id k driver p.by_sensor_id,
      h,
      eq_iff s.id k,
      eq_iff k s.id,
    );
  }
  extend buses false s l sensors driver p q fits apart_ids x = record {
    listed = x.listed;
    fitted = x.fitted;
    kept = λ k h. x.kept k (ground (arith, h));
  }

  prepare_all_lem :
      (buses : Dict BusConfig) (sensors : List SensorConfig) (p : PreparedDrivers W)
      → all (placed buses) sensors ≡ true
      → Distinct sensors
      → Prepares W factories sensors
          (Extends buses (enabled_of sensors) sensors p)
          (prepare_all W factories buses sensors p)
  unfolding prepare_all
  prepare_all_lem buses [] p fit ids = record {
    listed = sym (append-nil p.sensors);
    fitted = tt;
    kept = λ k h. refl;
  }
  prepare_all_lem buses (s ∷ sensors) p fit ids =
      Prepares-bind W factories (s ∷ sensors) (Fits buses s)
        (Extends buses (enabled_of (s ∷ sensors)) (s ∷ sensors) p) (make_driver W factories buses s)
        _
        (Prepares-map W factories (s ∷ []) (s ∷ sensors) (Fits buses s) (Fits buses s) _
          (λ t h. first t h) (λ d h. h) (make_driver_lem buses s (ground (arith, fit))))
        λ driver fits.
          Prepares-map W factories sensors (s ∷ sensors)
            (Extends buses (enabled_of sensors) sensors (keep W s driver p)) _ _ (λ t h. inr h)
            (λ q x. extend buses s.enabled s (enabled_of sensors) sensors driver p q fits ids.0 x)
            (prepare_all_lem buses sensors (keep W s driver p) (ground (arith, fit)) ids.1)
    where
      first : (t : SensorConfig) → IsIn t (s ∷ []) → IsIn t (s ∷ sensors)
      first t (inl e) = inl e
      first t (inr h) = absurd h

  -- The enabled sensors in their order, each with its own driver under its id.
  pub record IsPrepared (config : AppConfig) (p : PreparedDrivers W) : Type 0 where
    pub sensors : p.sensors ≡ enabled_of config.sensors
    pub drivers :
        All
          (λ (s : SensorConfig).
            (d : SensorDriver W) × (lookup s.id p.by_sensor_id ≡ some d) × Fits config.buses s d)
          (enabled_of config.sensors)

  -- From a loaded configuration the registry either prepares exactly the enabled sensors, each with the
  -- driver that its own factory made, on a bus that the driver supports, with one or more fields
  -- whose names differ and none of whose names or units is empty; or it raises `ConfigError`, or what
  -- the factory of one of the sensors raised for it.
  pub prepare-IsPrepared :
      (u : ℕ → Bool) (path : FilePath) (source : Source) (config : AppConfig)
      → load_config u path source ≡ ok config
      → Prepares W factories config.sensors (IsPrepared config) (prepare W factories config)
  unfolding prepare is_topology
  prepare-IsPrepared u path source config loads =
      let valid = (load_config-IsConfig u path source config loads).topology in
      Prepares-map W factories config.sensors config.sensors
        (Extends config.buses (enabled_of config.sensors) config.sensors
          (record { sensors = []; by_sensor_id = [] }))
        (IsPrepared config) _ (λ s h. h) (λ p x. record { sensors = x.listed; drivers = x.fitted })
        (prepare_all_lem config.buses config.sensors _ (ground (arith, valid))
          (apart-Distinct config.buses [] config.sensors (ground (arith, valid))))

  pub prepared_lem :
      (u : ℕ → Bool) (path : FilePath) (source : Source) (config : AppConfig)
      (prepared : PreparedDrivers W)
      → load_config u path source ≡ ok config
      → prepare W factories config ≡ ok prepared
      → IsPrepared config prepared
  prepared_lem u path source config prepared loads prepares =
      subst (Prepares W factories config.sensors (IsPrepared config)) prepares
        (prepare-IsPrepared u path source config loads)

  pub refused_lem :
      (u : ℕ → Bool) (path : FilePath) (source : Source) (config : AppConfig) (e : Exception)
      → load_config u path source ≡ ok config
      → prepare W factories config ≡ err e
      → Refused W factories config.sensors e
  refused_lem u path source config e loads refused =
      subst (Prepares W factories config.sensors (IsPrepared config)) refused
        (prepare-IsPrepared u path source config loads)
