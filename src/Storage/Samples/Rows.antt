-- ===== src/Storage/Samples/Rows.antt =====
-- What src/storage/repositories/samples.py puts in the tables for one sample.
use mathlib.Core.List.{append_assoc, append-nil}
use sensorctl.Prelude.{
  ℕ, suc, ◌≤◌, ◌≡◌, refl, ap, sym, subst, ◌∙◌, Bool, true, false, Option, none, some, List, [], ◌∷◌,
  ◌++◌, arith, all, leb, ◌==◌, if◌then◌else◌, if-cases, Exception, Result, ok, err, or_raise,
  or_raise-eq-ok, key_error,
}
use sensorctl.Prelude.Dict.{Dict, lookup}
use sensorctl.Prelude.Exec.{Exec, pure, lift, then_do, ◌>>=◌, >>=-cases}
use sensorctl.Model.{Float, Sample, StoredSensor}
use sensorctl.Storage.Samples.{
  SampleRow, MeasurementRow, Tables, field_values, has_key, sample_row, measurement_row, or_refuse,
  execute, insert_sample, insert_measurement, insert_measurements, write_sample,
}

-- The measurements of a sample, in order.
abbrev pub values_of : ℕ → List MeasurementRow → List (ℕ × Float)
values_of id [] = []
values_of id (m ∷ ms) =
    if m.sample_id == id then (m.field_id, m.value) ∷ values_of id ms else values_of id ms

values_of-append :
    (id : ℕ) (xs ys : List MeasurementRow)
    → values_of id (xs ++ ys) ≡ values_of id xs ++ values_of id ys
values_of-append id [] ys = refl
values_of-append id (x ∷ xs) ys = ground (arith, values_of-append id xs ys)

-- No measurement belongs to a sample that is still to come.
abbrev pub AllOld : Tables → Type 0
AllOld t = all (λ (m : MeasurementRow). leb m.sample_id t.last_id) t.measurements ≡ true

values_of_new :
    (last : ℕ) (ms : List MeasurementRow)
    → all (λ (m : MeasurementRow). leb m.sample_id last) ms ≡ true
    → values_of (suc last) ms ≡ []
values_of_new last [] h = refl
values_of_new last (m ∷ ms) h = ground (arith, h, values_of_new last ms)

-- A row holds a sample: the sensor's instance, the times, and each value under its field.
pub record Holds (stored : Dict StoredSensor) (t : Tables) (sample : Sample) (row : SampleRow)
    : Type 0 where
  pub sensor : StoredSensor
  pub listed : lookup sample.sensor_id stored ≡ some sensor
  pub row_is : row ≡ sample_row row.id sensor sample
  pub measured : field_values sensor.fields sample.values ≡ ok (values_of row.id t.measurements)

-- One row per sample, in order.
abbrev pub HoldAll : Dict StoredSensor → Tables → List Sample → List SampleRow → Type 0
HoldAll stored t [] [] = Unit {0}
HoldAll stored t (sample ∷ samples) (row ∷ rows) =
    Holds stored t sample row × HoldAll stored t samples rows
HoldAll stored t _ _ = ⊥

-- What the tables had stays, and what belongs to earlier samples.
pub record Grows (t t' : Tables) : Type 0 where
  pub no_less : t.last_id ≤ t'.last_id
  pub kept : (id : ℕ) → id ≤ t.last_id → values_of id t'.measurements ≡ values_of id t.measurements
  pub old : AllOld t'

all-append :
    (p : MeasurementRow → Bool) (xs ys : List MeasurementRow)
    → all p xs ≡ true
    → all p ys ≡ true
    → all p (xs ++ ys) ≡ true
all-append p [] ys h k = k
all-append p (x ∷ xs) ys h k = ground (arith, h, all-append p xs ys (ground (arith, h)) k)

-- The rows of one sample are added.
record Added (id : ℕ) (ps : List (ℕ × Float)) (t t' : Tables) : Type 0 where
  samples_same : t'.samples ≡ t.samples
  last_same : t'.last_id ≡ t.last_id
  added : values_of id t'.measurements ≡ values_of id t.measurements ++ ps
  others : (j : ℕ) → (j == id) ≡ false → values_of j t'.measurements ≡ values_of j t.measurements
  old : AllOld t'

abbrev AddEnd : ℕ → List (ℕ × Float) → Tables → Result (Unit {0}) × Tables → Type 0
AddEnd id ps t (ok u, t') = Added id ps t t'
AddEnd id ps t (err e, t') = Unit {0}

append-Added :
    (id : ℕ) (ps qs : List (ℕ × Float)) (t u : Tables) (result : Result (Unit {0}) × Tables)
    → Added id ps t u
    → AddEnd id qs u result
    → AddEnd id (ps ++ qs) t result
append-Added id ps qs t u (ok x, v) a b = record {
  samples_same = b.samples_same ∙ a.samples_same;
  last_same = b.last_same ∙ a.last_same;
  added = b.added ∙ (ap (λ l. l ++ qs) a.added ∙ append_assoc (values_of id t.measurements) ps qs);
  others = λ j h. b.others j h ∙ a.others j h;
  old = b.old;
}
append-Added id ps qs t u (err e, v) a b = tt

-- One sample is written, or the statement raised.
pub record Wrote (stored : Dict StoredSensor) (sample : Sample) (t t' : Tables) : Type 0 where
  pub row : SampleRow
  pub holds : Holds stored t' sample row
  pub appended : t'.samples ≡ t.samples ++ row ∷ []
  pub row_old : row.id ≤ t'.last_id
  pub grows : Grows t t'

abbrev pub WroteEnd : Dict StoredSensor → Sample → Tables → Result (Unit {0}) × Tables → Type 0
WroteEnd stored sample t (ok u, t') = Wrote stored sample t t'
WroteEnd stored sample t (err e, t') = Unit {0}

abbrev with_row : StoredSensor → Sample → Tables → Tables
with_row sensor sample t = record t {
  samples = t.samples ++ sample_row (suc t.last_id) sensor sample ∷ [];
  last_id = suc t.last_id;
}

older :
    (last : ℕ) (ms : List MeasurementRow)
    → all (λ (m : MeasurementRow). leb m.sample_id last) ms ≡ true
    → all (λ (m : MeasurementRow). leb m.sample_id (suc last)) ms ≡ true
older last [] h = refl
older last (m ∷ ms) h = ground (arith, h, older last ms (ground (arith, h)))

added-Wrote :
    (stored : Dict StoredSensor) (sample : Sample) (sensor : StoredSensor) (t : Tables)
    (ps : List (ℕ × Float)) (result : Result (Unit {0}) × Tables)
    → AllOld t
    → lookup sample.sensor_id stored ≡ some sensor
    → field_values sensor.fields sample.values ≡ ok ps
    → AddEnd (suc t.last_id) ps (with_row sensor sample t) result
    → WroteEnd stored sample t result
added-Wrote stored sample sensor t ps (err e, v) old listed fields a = tt
added-Wrote stored sample sensor t ps (ok x, v) old listed fields a = record {
  row = sample_row (suc t.last_id) sensor sample;
  holds = record {
    sensor = sensor;
    listed = listed;
    row_is = refl;
    measured =
        fields
        ∙ ap ok (sym (a.added ∙ ap (λ l. l ++ ps) (values_of_new t.last_id t.measurements old)));
  };
  appended = a.samples_same;
  row_old = omega (arith, a.last_same);
  grows = record {
    no_less = omega (arith, a.last_same);
    kept = λ j h. a.others j (ground (arith, h));
    old = a.old;
  };
}

module _ (refuses : Tables → Option Exception) where
  refuse-AddEnd :
      (id : ℕ) (ps : List (ℕ × Float)) (t s : Tables) (m : Exec Tables (Unit {0}))
      → AddEnd id ps t (m s)
      → AddEnd id ps t (execute refuses m s)
  refuse-AddEnd id ps t s m h = go (refuses s)
    where
      go : (o : Option Exception) → AddEnd id ps t (or_refuse refuses o m s)
      go none = h
      go (some e) = tt

  insert_measurement_lem :
      (id : ℕ) (p : ℕ × Float) (t : Tables)
      → AllOld t
      → id ≤ t.last_id
      → AddEnd id (p ∷ []) t (insert_measurement refuses id p t)
  unfolding insert_measurement
  insert_measurement_lem id p t old known = refuse-AddEnd id (p ∷ []) t t _ (
      if-cases (AddEnd id (p ∷ []) t) (has_key id p.0 t.measurements) _ _ (λ _. tt)
        (λ _. record {
          samples_same = refl;
          last_same = refl;
          added =
              values_of-append id t.measurements (measurement_row id p ∷ [])
              ∙ ap (λ l. values_of id t.measurements ++ l) (ground arith);
          others = λ j h.
              values_of-append j t.measurements (measurement_row id p ∷ [])
              ∙ (ap (λ l. values_of j t.measurements ++ l) (ground (arith, h)) ∙ append-nil _);
          old =
              all-append (λ m. leb m.sample_id t.last_id) t.measurements _ old
                (ground (arith, known));
        }))

  insert_measurements_lem :
      (id : ℕ) (ps : List (ℕ × Float)) (t : Tables)
      → AllOld t
      → id ≤ t.last_id
      → AddEnd id ps t (insert_measurements refuses id ps t)
  unfolding insert_measurements
  insert_measurements_lem id [] t old known = record {
    samples_same = refl;
    last_same = refl;
    added = sym (append-nil _);
    others = λ j h. refl;
    old = old;
  }
  insert_measurements_lem id (p ∷ ps) t old known =
      both (insert_measurement refuses id p t) (insert_measurement_lem id p t old known)
        λ u a. insert_measurements_lem id ps u a.old (subst (λ n. id ≤ n) (sym a.last_same) known)
    where
      both :
          (r : Result (Unit {0}) × Tables)
          → AddEnd id (p ∷ []) t r
          → ((u : Tables)
              → Added id (p ∷ []) t u
              → AddEnd id ps u (insert_measurements refuses id ps u))
          → AddEnd id (p ∷ ps) t (then_do r (λ _. insert_measurements refuses id ps))
      both (ok x, u) a rest = append-Added id (p ∷ []) ps t u _ a (rest u a)
      both (err e, u) a rest = tt

  pub write_sample_lem :
      (stored : Dict StoredSensor) (sample : Sample) (t : Tables)
      → AllOld t
      → WroteEnd stored sample t (write_sample refuses stored sample t)
  unfolding write_sample insert_sample
  write_sample_lem stored sample t old =
      >>=-cases (WroteEnd stored sample t)
        (lift (or_raise (lookup sample.sensor_id stored) key_error sample.sensor_id)) _ t
        (λ sensor found.
          inserted sensor
            (or_raise-eq-ok (lookup sample.sensor_id stored) key_error sample.sensor_id found)
            (refuses t))
        (λ e _. tt)
    where
      inserted :
          (sensor : StoredSensor)
          → lookup sample.sensor_id stored ≡ some sensor
          → (o : Option Exception)
          → WroteEnd stored sample t (
              then_do
                (or_refuse refuses o (λ s. pure (suc s.last_id) (with_row sensor sample s)) t)
                (λ sample_id. lift (field_values sensor.fields sample.values) >>= λ rows.
                  insert_measurements refuses sample_id rows))
      inserted sensor listed (some e) = tt
      inserted sensor listed none =
          >>=-cases (WroteEnd stored sample t) (lift (field_values sensor.fields sample.values))
            (insert_measurements refuses (suc t.last_id)) (with_row sensor sample t)
            (λ ps fields. added-Wrote stored sample sensor t ps _ old listed fields (
              insert_measurements_lem (suc t.last_id) ps (with_row sensor sample t)
                (older t.last_id t.measurements old) (omega arith)))
            (λ e _. tt)
