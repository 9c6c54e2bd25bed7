-- ===== src/Runtime/Status/Pending.antt =====
-- Which calls of src/runtime/status.py leave it open or not whether a sensor has a task outstanding.
use sensorctl.Prelude.{
  ◌≡◌, refl, inl, inr, String, Bool, some, List, [], ◌∷◌, arith, Bool-cases, Option-cases, str_eq,
  eq_iff,
}
use sensorctl.Prelude.Dict.{lookup, lookup-insert}
use sensorctl.Model.{Sample}
use sensorctl.Runtime.Status.{SensorStatus, RuntimeStats, store, record_samples, committed}

-- The sensor has an entry, with this as `pending`.
abbrev pub HasPending : RuntimeStats → String → Bool → Type 0
HasPending s id p = (st : SensorStatus) × (lookup id s.sensors ≡ some st) × (st.pending ≡ p)

-- No sensor loses its entry or changes its `pending`.
abbrev pub KeepsPending : RuntimeStats → RuntimeStats → Type 0
KeepsPending s t = (id : String) (p : Bool) → HasPending s id p → HasPending t id p

store-KeepsPending :
    (id : String) (st new : SensorStatus) (s : RuntimeStats)
    → lookup id s.sensors ≡ some st
    → new.pending ≡ st.pending
    → KeepsPending s (store id new s)
store-KeepsPending id st new s known same j p (old, found, h) = elim (Bool-cases (str_eq id j)) [
  | inl here ↦ (
    new,
    ground (arith, lookup-insert id j new s.sensors, here),
    ground (arith, same, h, known, found, eq_iff id j, here),
  )
  | inr other ↦ (old, ground (arith, lookup-insert id j new s.sensors, other, found), h)
]

record_samples-KeepsPending :
    (samples : List Sample) (s : RuntimeStats) → KeepsPending s (record_samples samples s).1
unfolding record_samples
record_samples-KeepsPending [] s id p h = h
record_samples-KeepsPending (x ∷ samples) s id p h =
    elim (Option-cases (lookup x.sensor_id s.sensors)) [
      | inl e ↦ rw e h
      | inr (st, e) ↦
          let new = record st { last_recorded_at = some x.time } in
          rw e (
            record_samples-KeepsPending samples (store x.sensor_id new s) id p
              (store-KeepsPending x.sensor_id st new s e refl id p h))
    ]

pub committed-KeepsPending :
    (samples : List Sample) (committed_at : String) (s : RuntimeStats)
    → KeepsPending s (committed samples committed_at s).1
unfolding committed
committed-KeepsPending samples committed_at s id p h = record_samples-KeepsPending samples _ id p h
