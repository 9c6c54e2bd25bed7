-- ===== src/Runtime/Status/Counts.antt =====
-- Which methods of src/runtime/status.py move the totals of accepted and committed samples, and that
-- none adds or removes a sensor.
use sensorctl.Prelude.{
  ◌+◌, ◌≡◌, refl, String, true, some, List, [], ◌∷◌, ◌∙◌, arith, length, All, All-imp, inl, inr,
  Option-cases, ok,
}
use sensorctl.Prelude.Dict.{lookup, has, has-insert_old, lookup_of_has}
use sensorctl.Model.{Sample}
use sensorctl.Runtime.Status.{
  SensorStatus, RuntimeStats, store, accepted, dropped, record_samples, committed,
}

pub accepted-accepted : (s : RuntimeStats) → (accepted s).accepted_count ≡ s.accepted_count + 1
unfolding accepted
accepted-accepted s = refl

pub accepted-dropped :
    (k : String) (s : RuntimeStats) → (dropped k s).1.accepted_count ≡ s.accepted_count
unfolding dropped
accepted-dropped k s = ground arith

pub committed-dropped :
    (k : String) (s : RuntimeStats) → (dropped k s).1.committed_count ≡ s.committed_count
unfolding dropped
committed-dropped k s = ground arith

pub has-dropped :
    (k j : String) (s : RuntimeStats) → has j (dropped k s).1.sensors ≡ has j s.sensors
unfolding dropped
has-dropped k j s = elim (Option-cases (lookup k s.sensors)) [
  | inl e ↦ rw (e, dropped)
  | inr (st, e) ↦ rw (e, dropped) (has-insert_old k j _ st s.sensors e)
]

record_samples-counts :
    (samples : List Sample) (s : RuntimeStats)
    → ((record_samples samples s).1.accepted_count ≡ s.accepted_count)
      × ((record_samples samples s).1.committed_count ≡ s.committed_count)
unfolding record_samples
record_samples-counts [] s = (refl, refl)
record_samples-counts (x ∷ samples) s = elim (Option-cases (lookup x.sensor_id s.sensors)) [
  | inl e ↦ rw (e, record_samples) (refl, refl)
  | inr (st, e) ↦ rw (e, record_samples) (record_samples-counts samples _)
]

pub accepted-committed :
    (samples : List Sample) (now : String) (s : RuntimeStats)
    → (committed samples now s).1.accepted_count ≡ s.accepted_count
unfolding committed
accepted-committed samples now s = (record_samples-counts samples _).0

pub committed-committed :
    (samples : List Sample) (now : String) (s : RuntimeStats)
    → (committed samples now s).1.committed_count ≡ s.committed_count + length samples
unfolding committed
committed-committed samples now s = (record_samples-counts samples _).1

-- The sensor of a sample has an entry.
abbrev pub IsKnown : RuntimeStats → Sample → Type 0
IsKnown s x = has x.sensor_id s.sensors ≡ true

has-store :
    (k j : String) (st new : SensorStatus) (s : RuntimeStats)
    → lookup k s.sensors ≡ some st
    → has j (store k new s).sensors ≡ has j s.sensors
has-store k j st new s e = has-insert_old k j new st s.sensors e

-- A batch whose sensors are all known is recorded without an error, and the sensors stay the same.
record_samples_known :
    (samples : List Sample) (s : RuntimeStats)
    → All (IsKnown s) samples
    → ((record_samples samples s).0 ≡ ok tt)
      × ((j : String) → has j (record_samples samples s).1.sensors ≡ has j s.sensors)
unfolding record_samples
record_samples_known [] s h = (refl, λ j. refl)
record_samples_known (x ∷ samples) s h =
    let (st, e) = lookup_of_has x.sensor_id s.sensors h.0 in
    let new = record st { last_recorded_at = some x.time } in
    let s' = store x.sensor_id new s in
    let kept = λ (j : String). has-store x.sensor_id j st new s e in
    let (r, rest) =
      record_samples_known samples s'
        (All-imp (IsKnown s) (IsKnown s') samples (λ y known. kept y.sensor_id ∙ known) h.1) in
    rw (e, record_samples) (r, λ j. rest j ∙ kept j)

pub committed_known :
    (samples : List Sample) (now : String) (s : RuntimeStats)
    → All (IsKnown s) samples
    → ((committed samples now s).0 ≡ ok tt)
      × ((j : String) → has j (committed samples now s).1.sensors ≡ has j s.sensors)
unfolding committed
committed_known samples now s h = record_samples_known samples _ h
