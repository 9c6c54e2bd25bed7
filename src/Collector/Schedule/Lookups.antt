-- ===== src/Collector/Schedule/Lookups.antt =====
-- What the loop of src/collector.py looks up for a sensor: its deadline, status, queue and interval.
use sensorctl.Prelude.{
  ℕ, ◌≤◌, ◌<◌, ◌≡◌, inl, inr, String, some, List, [], ◌∷◌, arith, Bool-cases, eq_refl, str_eq, All,
}
use sensorctl.Prelude.Dict.{Listed, Dict, lookup, insert, lookup-insert}
use sensorctl.Config.Sensor.{SensorConfig}
use sensorctl.Collector.Schedule.{Scheduler, intervals_of}

-- The sensor has a status and its bus a queue; it has a deadline.
pub record Ready (s : Scheduler) (sensor : SensorConfig) : Type 0 where
  pub deadline : Listed sensor.id s.deadlines
  pub status : Listed sensor.id s.stats.sensors
  pub queue : Listed sensor.bus s.bus_tasks

-- Its deadline is after now.
abbrev pub Ahead : ℕ → Scheduler → SensorConfig → Type 0
Ahead now s sensor = (d : ℕ) × (lookup sensor.id s.deadlines ≡ some d) × (now < d)

-- An interval that is not 0.
abbrev pub HasInterval : Dict ℕ → String → Type 0
HasInterval d k = (i : ℕ) × (lookup k d ≡ some i) × (1 ≤ i)

HasInterval-insert :
    (k j : String) (i : ℕ) (d : Dict ℕ) → 1 ≤ i → HasInterval d j → HasInterval (insert k i d) j
HasInterval-insert k j i d positive (e, h, p) = elim (Bool-cases (str_eq k j)) [
  | inl same ↦ (i, ground (arith, lookup-insert k j i d, same), positive)
  | inr other ↦ (e, ground (arith, lookup-insert k j i d, other, h), p)
]

abbrev pub Positive : SensorConfig → Type 0
Positive sensor = 1 ≤ sensor.interval_ms

intervals_of_kept :
    (sensors : List SensorConfig) (d : Dict ℕ) (k : String)
    → All Positive sensors
    → HasInterval d k
    → HasInterval (intervals_of sensors d) k
unfolding intervals_of
intervals_of_kept [] d k p h = h
intervals_of_kept (x ∷ sensors) d k p h =
    intervals_of_kept sensors _ k p.1 (HasInterval-insert x.id k x.interval_ms d p.0 h)

pub intervals_of_all :
    (sensors : List SensorConfig) (d : Dict ℕ)
    → All Positive sensors
    → All (λ (x : SensorConfig). HasInterval (intervals_of sensors d) x.id) sensors
unfolding intervals_of
intervals_of_all [] d p = tt
intervals_of_all (x ∷ sensors) d p = (
  intervals_of_kept sensors _ x.id p.1
      (x.interval_ms, ground (arith, lookup-insert x.id x.id x.interval_ms d, eq_refl x.id), p.0),
  intervals_of_all sensors _ p.1,
)
