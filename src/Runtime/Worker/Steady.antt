-- ===== src/Runtime/Worker/Steady.antt =====
-- The entries that a task of src/runtime/worker.py and the other threads leave idle.
use sensorctl.Prelude.{
  ◌≡◌, ap, subst, ◌∙◌, ◌⊎◌, inl, inr, String, true, false, some, Bool-cases, eq_iff, str_eq, Result,
  ok,
}
use sensorctl.Prelude.Dict.{lookup}
use sensorctl.Config.Sensor.{SensorConfig}
use sensorctl.Runtime.Status.{SensorStatus, RuntimeStats}
use sensorctl.Runtime.Queue.{Shared}
use sensorctl.Runtime.Worker.{Bus, Bench, Turn, perform}
use sensorctl.Runtime.Worker.Measure.{Succeeded}
use sensorctl.Runtime.Worker.Tasks.{Failed, Settled, perform-Settled}

-- The sensor has an entry; and it has one with no task outstanding.
abbrev pub IsListed : RuntimeStats → String → Type 0
IsListed s k = (st : SensorStatus) × (lookup k s.sensors ≡ some st)

abbrev pub NotPending : RuntimeStats → String → Type 0
NotPending s k = (st : SensorStatus) × (lookup k s.sensors ≡ some st) × (st.pending ≡ false)

-- No sensor loses its entry, and none gets a task outstanding that had none.
pub record Steady (s t : RuntimeStats) : Type 0 where
  pub listed : (k : String) → IsListed s k → IsListed t k
  pub idle : (k : String) → NotPending s k → NotPending t k

pub Steady-trans : (s t u : RuntimeStats) → Steady s t → Steady t u → Steady s u
Steady-trans s t u p q = record {
  listed = λ k h. q.listed k (p.listed k h);
  idle = λ k h. q.idle k (p.idle k h);
}

-- What the other threads do in a turn: they dispatch nothing.
abbrev pub IsQuiet : Turn → Type 0
IsQuiet t = (s : Shared) → Steady s.stats (t.others s).stats

module _ (W : Type 0) (c : Bus W) where
  pub settled-pending :
      (sensor : SensorConfig) (st status : SensorStatus) (b b' : Bench W)
      → Succeeded W c sensor st b status b' ⊎ Failed W c sensor st b status b'
      → status.pending ≡ false
  settled-pending sensor st status b b' (inl s) = ap (λ (x : SensorStatus). x.pending) s.counted
  settled-pending sensor st status b b' (inr f) = ap (λ (x : SensorStatus). x.pending) f.counted

  -- A task leaves its sensor idle, and the others as they were.
  pub record Performed (k : String) (b : Bench W) (result : Result (Unit {0}) × Bench W)
      : Type 0 where
    pub returns : result.0 ≡ ok tt
    pub cleared : NotPending result.1.shared.stats k
    pub steady : Steady b.shared.stats result.1.shared.stats
    pub tasks_same : result.1.tasks ≡ b.tasks

  pub perform-Performed :
      (sensor : SensorConfig) (b : Bench W)
      → IsListed b.shared.stats sensor.id
      → Performed sensor.id b (perform W c sensor b)
  perform-Performed sensor b (st, known) = record {
    returns = s.returns;
    cleared = cleared;
    steady = record {
      listed = λ k h. elim (Bool-cases (str_eq sensor.id k)) [
        | inl same ↦ subst (IsListed after) (of_same k same) (s.status, s.found)
        | inr other ↦ (h.0, s.others k other ∙ h.1)
      ];
      idle = λ k h. elim (Bool-cases (str_eq sensor.id k)) [
        | inl same ↦ subst (NotPending after) (of_same k same) cleared
        | inr other ↦ (h.0, s.others k other ∙ h.1, h.2)
      ];
    };
    tasks_same = s.tasks_same;
  }
    where
      after : RuntimeStats
      after = (perform W c sensor b).1.shared.stats

      s : Settled W c sensor st b (perform W c sensor b)
      s = perform-Settled W c sensor st b known

      cleared : NotPending after sensor.id
      cleared = (s.status, s.found, settled-pending sensor st s.status b _ s.outcome)

      of_same : (k : String) → str_eq sensor.id k ≡ true → sensor.id ≡ k
      of_same k h = (eq_iff sensor.id k).0 h
