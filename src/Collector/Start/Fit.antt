-- ===== src/Collector/Start/Fit.antt =====
-- The enabled sensors that src/collector.py gets, for a configuration that was loaded.
use sensorctl.Prelude.{
  ℕ, ◌≡◌, sym, subst, arith, Bool, true, not, List, [], ◌∷◌, all, All, All-imp, if-cases, str_eq,
  ok,
}
use sensorctl.Config.Sensor.{SensorConfig}
use sensorctl.Config.Collisions.Topology.{is_topology}
use sensorctl.Config.Load.{AppConfig, Source, load_config}
use sensorctl.Config.Load.Valid.{IsSensor}
use sensorctl.Config.Load.Checked.{load_config-IsConfig}
use sensorctl.Config.Paths.{FilePath}
use sensorctl.Hardware.Registry.{Factories, PreparedDrivers, prepare}
use sensorctl.Hardware.Registry.Prepared.{enabled_of, prepared_lem}
use sensorctl.Hardware.Registry.Unique.{Distinct, apart-Distinct}
use sensorctl.Collector.Schedule.Lookups.{Positive}

-- Each interval is at least 1, and no two sensors have one id.
pub record IsFit (enabled : List SensorConfig) : Type 0 where
  pub positive : All Positive enabled
  pub distinct : Distinct enabled

enabled-All :
    (P : SensorConfig → Type 0) (sensors : List SensorConfig)
    → All P sensors
    → All P (enabled_of sensors)
enabled-All P [] h = tt
enabled-All P (s ∷ sensors) h =
    if-cases (All P) s.enabled (s ∷ enabled_of sensors) (enabled_of sensors)
      (λ _. (h.0, enabled-All P sensors h.1)) (λ _. enabled-All P sensors h.1)

enabled-all :
    (p : SensorConfig → Bool) (sensors : List SensorConfig)
    → all p sensors ≡ true
    → all p (enabled_of sensors) ≡ true
enabled-all p [] h = h
enabled-all p (s ∷ sensors) h = ground (arith, h, enabled-all p sensors)

enabled-Distinct : (sensors : List SensorConfig) → Distinct sensors → Distinct (enabled_of sensors)
enabled-Distinct [] h = tt
enabled-Distinct (s ∷ sensors) h =
    if-cases Distinct s.enabled (s ∷ enabled_of sensors) (enabled_of sensors)
      (λ _. (enabled-all (λ t. not (str_eq s.id t.id)) sensors h.0, enabled-Distinct sensors h.1))
      (λ _. enabled-Distinct sensors h.1)

pub prepared-IsFit :
    (W : Type 0) (factories : Factories W) (u : ℕ → Bool) (path : FilePath) (source : Source)
    (config : AppConfig) (prepared : PreparedDrivers W)
    → load_config u path source ≡ ok config
    → prepare W factories config ≡ ok prepared
    → IsFit prepared.sensors
unfolding is_topology
prepared-IsFit W factories u path source config prepared loads prepares =
    let fit = prepared_lem W factories u path source config prepared loads prepares in
    let valid = load_config-IsConfig u path source config loads in
    let topology = valid.topology in
    subst IsFit (sym fit.sensors) (record {
      positive = enabled-All Positive config.sensors (
          All-imp IsSensor Positive config.sensors (λ s v. omega (arith, v.interval.0))
            valid.sensors);
      distinct =
          enabled-Distinct config.sensors
            (apart-Distinct config.buses [] config.sensors (ground (arith, topology)));
    })
