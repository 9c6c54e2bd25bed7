-- ===== src/Hardware/Registry/Unique.antt =====
-- The names of a driver's fields and the ids of the sensors in src/hw/drivers/registry.py: none comes
-- twice.
use sensorctl.Prelude.{
  ◌≤◌, ◌≡◌, refl, String, Bool, true, false, not, ◌&&◌, List, [], ◌∷◌, ◌++◌, arith, length, any,
  all, apart, str_eq, Bool-cases, inl, inr,
}
use sensorctl.Prelude.Dict.{Dict, mem}
use sensorctl.Config.Bus.{BusConfig}
use sensorctl.Config.Sensor.{SensorConfig}
use sensorctl.Config.Collisions.Topology.{sensor_clash}
use sensorctl.Hardware.Registry.{set_size}

-- No name comes twice.
abbrev pub all_differ : List String → Bool
all_differ [] = true
all_differ (name ∷ names) = not (mem name names) && all_differ names

set_size-length : (names : List String) → set_size names ≤ length names
unfolding set_size
set_size-length [] = omega arith
set_size-length (name ∷ names) = ground (arith, set_size-length names)

pub set_size_full : (names : List String) → set_size names ≡ length names → all_differ names ≡ true
unfolding set_size
set_size_full [] h = refl
set_size_full (name ∷ names) h = elim (Bool-cases (mem name names)) [
  | inl there ↦ absurd (ground (arith, there, set_size-length names, h))
  | inr new ↦ ground (arith, new, h, set_size_full names)
]

-- Each id differs from those after it.
abbrev pub Distinct : List SensorConfig → Type 0
Distinct [] = Unit {0}
Distinct (s ∷ rest) =
    (all (λ (t : SensorConfig). not (str_eq s.id t.id)) rest ≡ true) × Distinct rest

module _ (buses : Dict BusConfig) where
  not_before :
      (t s : SensorConfig) (front back : List SensorConfig)
      → any (sensor_clash buses t) (front ++ s ∷ back) ≡ false
      → str_eq s.id t.id ≡ false
  not_before t s [] back h = ground (arith, h)
  not_before t s (x ∷ front) back h = not_before t s front back (ground (arith, h))

  ids_later :
      (s : SensorConfig) (front back sensors : List SensorConfig)
      → apart (sensor_clash buses) (front ++ s ∷ back) sensors ≡ true
      → all (λ (t : SensorConfig). not (str_eq s.id t.id)) sensors ≡ true
  ids_later s front back [] h = refl
  ids_later s front back (t ∷ sensors) h = ground (
    arith,
    not_before t s front back (ground (arith, h)),
    ids_later s (t ∷ front) back sensors (ground (arith, h)),
  )

  pub apart-Distinct :
      (earlier sensors : List SensorConfig)
      → apart (sensor_clash buses) earlier sensors ≡ true
      → Distinct sensors
  apart-Distinct earlier [] h = tt
  apart-Distinct earlier (s ∷ sensors) h = (
    ids_later s [] earlier sensors (ground (arith, h)),
    apart-Distinct (s ∷ earlier) sensors (ground (arith, h)),
  )
