-- ===== src/Storage/Samples/Written.antt =====
-- What is in the tables after src/storage/database.py has written a batch.
use mathlib.Core.List.{append_assoc, append-nil}
use sensorctl.Prelude.{
  ℕ, ◌≤◌, ◌≡◌, refl, ap, sym, ◌∙◌, true, Option, none, some, List, [], ◌∷◌, ◌++◌, arith, all, leb,
  Exception, Result, ok, err,
}
use sensorctl.Prelude.Dict.{Dict}
use sensorctl.Prelude.Exec.{then_do}
use sensorctl.Model.{Sample, StoredSensor}
use sensorctl.Storage.Samples.{
  SampleRow, Tables, write_sample, write_rows, end_transaction, commit, write_samples,
}
use sensorctl.Storage.Samples.Rows.{
  values_of, AllOld, Holds, HoldAll, Wrote, WroteEnd, write_sample_lem,
}

-- A batch is in the tables: one row for each sample, in order, after what was there.
pub record Stored (stored : Dict StoredSensor) (samples : List Sample) (t t' : Tables)
    : Type 0 where
  pub rows : List SampleRow
  pub appended : t'.samples ≡ t.samples ++ rows
  pub holds : HoldAll stored t' samples rows
  pub kept : (id : ℕ) → id ≤ t.last_id → values_of id t'.measurements ≡ values_of id t.measurements
  pub no_less : t.last_id ≤ t'.last_id
  pub rows_old : all (λ (r : SampleRow). leb r.id t'.last_id) rows ≡ true
  pub old : AllOld t'

pub Holds-later :
    (stored : Dict StoredSensor) (sample : Sample) (row : SampleRow) (u v : Tables)
    → Holds stored u sample row
    → values_of row.id v.measurements ≡ values_of row.id u.measurements
    → Holds stored v sample row
Holds-later stored sample row u v h same = record {
  sensor = h.sensor;
  listed = h.listed;
  row_is = h.row_is;
  measured = h.measured ∙ ap ok (sym same);
}

Wrote-Stored :
    (stored : Dict StoredSensor) (sample : Sample) (samples : List Sample) (t u v : Tables)
    → Wrote stored sample t u
    → Stored stored samples u v
    → Stored stored (sample ∷ samples) t v
Wrote-Stored stored sample samples t u v w s = record {
  rows = w.row ∷ s.rows;
  appended =
      s.appended ∙ (ap (λ l. l ++ s.rows) w.appended ∙ append_assoc t.samples (w.row ∷ []) s.rows);
  holds = (Holds-later stored sample w.row u v w.holds (s.kept w.row.id w.row_old), s.holds);
  kept = λ id h. s.kept id (omega (arith, h, w.grows.no_less)) ∙ w.grows.kept id h;
  no_less = omega (arith, w.grows.no_less, s.no_less);
  rows_old = ground (arith, w.row_old, s.no_less, s.rows_old);
  old = s.old;
}

abbrev StoredEnd : Dict StoredSensor → List Sample → Tables → Result (Unit {0}) × Tables → Type 0
StoredEnd stored samples t (ok u, t') = Stored stored samples t t'
StoredEnd stored samples t (err e, t') = Unit {0}

-- The whole batch or nothing.
abbrev pub Atomic : Dict StoredSensor → List Sample → Tables → Result (Unit {0}) × Tables → Type 0
Atomic stored samples t (ok u, t') = Stored stored samples t t'
Atomic stored samples t (err e, t') = t' ≡ t

module _ (refuses : Tables → Option Exception) where
  first_then :
      (stored : Dict StoredSensor) (sample : Sample) (samples : List Sample) (t : Tables)
      (r : Result (Unit {0}) × Tables)
      → WroteEnd stored sample t r
      → ((u : Tables) → AllOld u → StoredEnd stored samples u (write_rows refuses stored samples u))
      → StoredEnd stored (sample ∷ samples) t (then_do r (λ _. write_rows refuses stored samples))
  first_then stored sample samples t (err e, u) w rest = tt
  first_then stored sample samples t (ok x, u) w rest =
      last (write_rows refuses stored samples u) (rest u w.grows.old)
    where
      last :
          (q : Result (Unit {0}) × Tables)
          → StoredEnd stored samples u q
          → StoredEnd stored (sample ∷ samples) t q
      last (ok y, v) s = Wrote-Stored stored sample samples t u v w s
      last (err e, v) s = tt

  write_rows_lem :
      (stored : Dict StoredSensor) (samples : List Sample) (t : Tables)
      → AllOld t
      → StoredEnd stored samples t (write_rows refuses stored samples t)
  unfolding write_rows
  write_rows_lem stored [] t old = record {
    rows = [];
    appended = sym (append-nil t.samples);
    holds = tt;
    kept = λ id h. refl;
    no_less = omega arith;
    rows_old = refl;
    old = old;
  }
  write_rows_lem stored (sample ∷ samples) t old =
      first_then stored sample samples t (write_sample refuses stored sample t)
        (write_sample_lem refuses stored sample t old)
        λ u older. write_rows_lem stored samples u older

  -- A batch is written whole or not at all. If the write returns, the tables have one more row for each
  -- sample, in order, each with its sensor's instance, its times and all its values under their
  -- fields, and what belonged to earlier samples is unchanged; if anything raises, the commit
  -- included, the tables are as before.
  pub write_samples-Atomic :
      (stored : Dict StoredSensor) (samples : List Sample) (t : Tables)
      → AllOld t
      → Atomic stored samples t (write_samples refuses stored samples t)
  unfolding write_samples
  write_samples-Atomic stored samples t old =
      ends (write_rows refuses stored samples t) (write_rows_lem stored samples t old)
    where
      committed :
          (u : Tables) (o : Option Exception)
          → Stored stored samples t u
          → Atomic stored samples t (commit refuses t u o)
      committed u none s = s
      committed u (some e) s = refl

      ends :
          (r : Result (Unit {0}) × Tables)
          → StoredEnd stored samples t r
          → Atomic stored samples t (end_transaction refuses t r)
      ends (err e, u) s = refl
      ends (ok x, u) s = committed u (refuses u) s
