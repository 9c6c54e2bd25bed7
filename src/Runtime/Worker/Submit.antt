-- ===== src/Runtime/Worker/Submit.antt =====
-- `submit` of src/runtime/queue.py: the sample in the queue or counted as dropped.
use sensorctl.Prelude.{
  ◌+◌, ◌≡◌, refl, ◌⊎◌, inl, inr, String, false, some, [], ◌∷◌, ◌++◌, if-cases, str_eq, Result, ok,
}
use sensorctl.Prelude.Dict.{lookup}
use sensorctl.Model.{Sample}
use sensorctl.Runtime.Status.{SensorStatus, RuntimeStats, store, dropped, accepted}
use sensorctl.Runtime.Status.Methods.{
  after_dropped, dropped_found, lookup-store_self, lookup-store_ne,
}
use sensorctl.Runtime.Queue.{Shared, with_stats, submit, is_full, admit}

-- Other sensors' entries, and those of nothing else, stay.
abbrev pub OthersStay : String → RuntimeStats → RuntimeStats → Type 0
OthersStay k s t = (j : String) → str_eq k j ≡ false → lookup j t.sensors ≡ lookup j s.sensors

pub OthersStay-store :
    (k : String) (st : SensorStatus) (s : RuntimeStats) → OthersStay k s (store k st s)
OthersStay-store k st s j h = lookup-store_ne k j st s h

-- The sample is either at the end of the queue and counted as accepted, or counted as dropped.
abbrev pub Handed : Sample → SensorStatus → Shared → SensorStatus → Shared → Type 0
Handed x st s st' s' =
    ((st' ≡ st)
      × (s'.queue.items ≡ s.queue.items ++ some x ∷ [])
      × (s'.stats.accepted_count ≡ s.stats.accepted_count + 1))
    ⊎ ((st' ≡ after_dropped st)
        × (s'.queue.items ≡ s.queue.items)
        × (s'.stats.accepted_count ≡ s.stats.accepted_count))

pub record Submitted (x : Sample) (st : SensorStatus) (s : Shared)
    (result : Result (Unit {0}) × Shared) : Type 0 where
  pub returns : result.0 ≡ ok tt
  pub status : SensorStatus
  pub found : lookup x.sensor_id result.1.stats.sensors ≡ some status
  pub others : OthersStay x.sensor_id s.stats result.1.stats
  pub handed : Handed x st s status result.1

pub submit-Submitted :
    (x : Sample) (st : SensorStatus) (s : Shared)
    → lookup x.sensor_id s.stats.sensors ≡ some st
    → Submitted x st s (submit x s)
unfolding submit accepted
submit-Submitted x st s known =
    if-cases (Submitted x st s) s.queue.closed _ _ (λ _. refused)
      (λ _. if-cases (Submitted x st s) (is_full s.queue) _ _ (λ _. refused) (λ _. admission))
  where
    refused : Submitted x st s (with_stats (dropped x.sensor_id) s)
    refused = rw (dropped_found x.sensor_id s.stats known) (record {
      returns = refl;
      status = after_dropped st;
      found = lookup-store_self x.sensor_id (after_dropped st) s.stats;
      others = OthersStay-store x.sensor_id (after_dropped st) s.stats;
      handed = inr (refl, refl, refl);
    })

    admission : Submitted x st s (ok tt, admit x s)
    admission = record {
      returns = refl;
      status = st;
      found = known;
      others = λ j h. refl;
      handed = inl (refl, refl, refl);
    }
