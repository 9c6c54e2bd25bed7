-- ===== src/Collector/Start/Entries.antt =====
-- The dicts that src/collector.py starts with.
use sensorctl.Prelude.{
  ℕ, ◌≡◌, ap, ◌∙◌, arith, String, true, Option, some, List, [], ◌∷◌, All, str_eq, eq_iff,
  Bool-cases, inl, inr,
}
use sensorctl.Prelude.Dict.{
  insert_here, Listed-insert, Dict, lookup, insert, keys, mem, lookup-insert,
}
use sensorctl.Config.Sensor.{SensorConfig}
use sensorctl.Runtime.Status.{SensorStatus, fresh_status, fresh_sensors}
use sensorctl.Runtime.Worker.{ReadTask}
use sensorctl.Collector.Schedule.{intervals_of}
use sensorctl.Collector.Start.{empty_queues, first_deadlines, sensor_ids}

-- The four dicts of the set-up, each with an entry for every sensor.
queues_kept :
    (sensors : List SensorConfig) (k : String) (d : Dict (List (Option ReadTask)))
    → lookup k d ≡ some []
    → lookup k (empty_queues sensors d) ≡ some []
unfolding empty_queues
queues_kept [] k d h = h
queues_kept (s ∷ sensors) k d h =
    queues_kept sensors k (insert s.bus [] d) (ground (arith, lookup-insert s.bus k [] d, h))

pub empty_queues-empty :
    (sensors : List SensorConfig) (k : String) (d : Dict (List (Option ReadTask)))
    (l : List (Option ReadTask))
    → ((m : List (Option ReadTask)) → lookup k d ≡ some m → m ≡ [])
    → lookup k (empty_queues sensors d) ≡ some l
    → l ≡ []
unfolding empty_queues
empty_queues-empty [] k d l none_yet h = none_yet l h
empty_queues-empty (s ∷ sensors) k d l none_yet h =
    empty_queues-empty sensors k (insert s.bus [] d) l
      (λ m found. ground (arith, lookup-insert s.bus k [] d, found, none_yet m)) h

pub empty_queues_lem :
    (sensors : List SensorConfig) (d : Dict (List (Option ReadTask)))
    → All (λ (s : SensorConfig). lookup s.bus (empty_queues sensors d) ≡ some []) sensors
unfolding empty_queues
empty_queues_lem [] d = tt
empty_queues_lem (s ∷ sensors) d = (
  queues_kept sensors s.bus (insert s.bus [] d) (insert_here s.bus [] d),
  empty_queues_lem sensors (insert s.bus [] d),
)

module _ (now : String → ℕ) where
  deadlines_kept :
      (sensors : List SensorConfig) (k : String) (d : Dict ℕ)
      → lookup k d ≡ some (now k)
      → lookup k (first_deadlines now sensors d) ≡ some (now k)
  unfolding first_deadlines
  deadlines_kept [] k d h = h
  deadlines_kept (s ∷ sensors) k d h =
      deadlines_kept sensors k (insert s.id (now s.id) d) (elim (Bool-cases (str_eq s.id k)) [
        | inl same ↦
            ground (arith, lookup-insert s.id k (now s.id) d, same)
            ∙ ap (λ j. some (now j)) ((eq_iff s.id k).0 same)
        | inr other ↦ ground (arith, lookup-insert s.id k (now s.id) d, other, h)
      ])

  pub first_deadlines_lem :
      (sensors : List SensorConfig) (d : Dict ℕ)
      → All
          (λ (s : SensorConfig). lookup s.id (first_deadlines now sensors d) ≡ some (now s.id))
          sensors
  unfolding first_deadlines
  first_deadlines_lem [] d = tt
  first_deadlines_lem (s ∷ sensors) d = (
    deadlines_kept sensors s.id (insert s.id (now s.id) d) (insert_here s.id (now s.id) d),
    first_deadlines_lem sensors (insert s.id (now s.id) d),
  )

intervals_kept :
    (sensors : List SensorConfig) (k : String) (d : Dict ℕ)
    → (i : ℕ) × (lookup k d ≡ some i)
    → (i : ℕ) × (lookup k (intervals_of sensors d) ≡ some i)
unfolding intervals_of
intervals_kept [] k d h = h
intervals_kept (s ∷ sensors) k d h =
    intervals_kept sensors k (insert s.id s.interval_ms d) (Listed-insert s.id k s.interval_ms d h)

pub intervals_of_lem :
    (sensors : List SensorConfig) (d : Dict ℕ)
    → All (λ (s : SensorConfig). (i : ℕ) × (lookup s.id (intervals_of sensors d) ≡ some i)) sensors
unfolding intervals_of
intervals_of_lem [] d = tt
intervals_of_lem (s ∷ sensors) d = (
  intervals_kept sensors s.id (insert s.id s.interval_ms d)
      (s.interval_ms, insert_here s.id s.interval_ms d),
  intervals_of_lem sensors (insert s.id s.interval_ms d),
)

fresh_kept :
    (ids : List String) (k : String) (d : Dict SensorStatus)
    → lookup k d ≡ some fresh_status
    → lookup k (fresh_sensors ids d) ≡ some fresh_status
unfolding fresh_sensors
fresh_kept [] k d h = h
fresh_kept (i ∷ ids) k d h =
    fresh_kept ids k (insert i fresh_status d) (ground (arith, lookup-insert i k fresh_status d, h))

pub fresh_sensors_lem :
    (sensors : List SensorConfig) (d : Dict SensorStatus)
    → All
        (λ (s : SensorConfig).
          lookup s.id (fresh_sensors (sensor_ids sensors) d) ≡ some fresh_status)
        sensors
unfolding fresh_sensors
fresh_sensors_lem [] d = tt
fresh_sensors_lem (s ∷ sensors) d = (
  fresh_kept (sensor_ids sensors) s.id (insert s.id fresh_status d)
      (insert_here s.id fresh_status d),
  fresh_sensors_lem sensors (insert s.id fresh_status d),
)

pub mem-keys :
    {V : Type 0} (k : String) (v : V) (d : Dict V) → lookup k d ≡ some v → mem k (keys d) ≡ true
unfolding lookup mem
mem-keys k v [] h = cc
mem-keys k v ((j, w) ∷ d) h = ground (arith, h, mem-keys k v d)
