-- ===== src/Storage/Journal.antt =====
-- What the tables of src/storage hold of the samples that were written to them.
use mathlib.Core.List.{append_assoc}
use sensorctl.Prelude.{
  ℕ, ◌≤◌, ◌≡◌, refl, sym, ap, subst, ◌∙◌, arith, Bool, true, List, [], ◌∷◌, ◌++◌, all, leb, Option,
  Exception, Result, ok, err,
}
use sensorctl.Prelude.Dict.{Dict}
use sensorctl.Model.{Sample, StoredSensor}
use sensorctl.Storage.Samples.{SampleRow, Tables, write_samples}
use sensorctl.Storage.Samples.Rows.{values_of, AllOld, HoldAll}
use sensorctl.Storage.Samples.Written.{Stored, Atomic, write_samples-Atomic, Holds-later}

-- No row has an id that is still to come.
abbrev pub RowsOld : ℕ → List SampleRow → Type 0
RowsOld last rows = all (λ (r : SampleRow). leb r.id last) rows ≡ true

-- Beyond the rows of the start, the tables hold one row for each sample of a journal, in order.
pub record Represents (stored : Dict StoredSensor) (start : List SampleRow) (journal : List Sample)
    (t : Tables) : Type 0 where
  pub rows : List SampleRow
  pub samples_are : t.samples ≡ start ++ rows
  pub hold : HoldAll stored t journal rows
  pub rows_old : RowsOld t.last_id rows
  pub old : AllOld t

all_app :
    (p : SampleRow → Bool) (xs ys : List SampleRow)
    → all p xs ≡ true
    → all p ys ≡ true
    → all p (xs ++ ys) ≡ true
all_app p [] ys h k = k
all_app p (x ∷ xs) ys h k = ground (arith, h, all_app p xs ys (ground (arith, h)) k)

later : (m n : ℕ) (rows : List SampleRow) → m ≤ n → RowsOld m rows → RowsOld n rows
later m n [] le h = refl
later m n (r ∷ rows) le h = ground (arith, h, le, later m n rows le (ground (arith, h)))

module _ (refuses : Tables → Option Exception) (stored : Dict StoredSensor) where
  HoldAll-later :
      (t u : Tables) (journal : List Sample) (rows : List SampleRow)
      → RowsOld t.last_id rows
      → ((id : ℕ) → id ≤ t.last_id → values_of id u.measurements ≡ values_of id t.measurements)
      → HoldAll stored t journal rows
      → HoldAll stored u journal rows
  HoldAll-later t u [] [] old kept h = tt
  HoldAll-later t u (s ∷ journal) (r ∷ rows) old kept h = (
    Holds-later stored s r t u h.0 (kept r.id (ground (arith, old))),
    HoldAll-later t u journal rows (ground (arith, old)) kept h.1,
  )
  HoldAll-later t u [] (r ∷ rows) old kept h = h
  HoldAll-later t u (s ∷ journal) [] old kept h = h

  HoldAll-append :
      (t : Tables) (journal more : List Sample) (rows rest : List SampleRow)
      → HoldAll stored t journal rows
      → HoldAll stored t more rest
      → HoldAll stored t (journal ++ more) (rows ++ rest)
  HoldAll-append t [] more [] rest h k = k
  HoldAll-append t (s ∷ journal) more (r ∷ rows) rest h k =
      (h.0, HoldAll-append t journal more rows rest h.1 k)
  HoldAll-append t [] more (r ∷ rows) rest h k = absurd h
  HoldAll-append t (s ∷ journal) more [] rest h k = absurd h

  -- A write that returns adds its batch to the journal, and one that raises adds nothing.
  abbrev pub WriteEnd :
      List SampleRow → List Sample → List Sample → Result (Unit {0}) × Tables → Type 0
  WriteEnd start journal samples (ok u, t) = Represents stored start (journal ++ samples) t
  WriteEnd start journal samples (err e, t) = Represents stored start journal t

  Stored-Represents :
      (start : List SampleRow) (journal samples : List Sample) (t u : Tables)
      → Represents stored start journal t
      → Stored stored samples t u
      → Represents stored start (journal ++ samples) u
  Stored-Represents start journal samples t u v s = record {
    rows = v.rows ++ s.rows;
    samples_are =
        s.appended ∙ (ap (λ l. l ++ s.rows) v.samples_are ∙ append_assoc start v.rows s.rows);
    hold =
        HoldAll-append u journal samples v.rows s.rows
          (HoldAll-later t u journal v.rows v.rows_old s.kept v.hold) s.holds;
    rows_old = all_app _ v.rows s.rows (later _ _ v.rows s.no_less v.rows_old) s.rows_old;
    old = s.old;
  }

  pub write_samples-WriteEnd :
      (start : List SampleRow) (journal samples : List Sample) (t : Tables)
      → Represents stored start journal t
      → WriteEnd start journal samples (write_samples refuses stored samples t)
  write_samples-WriteEnd start journal samples t v =
      ends (write_samples refuses stored samples t)
        (write_samples-Atomic refuses stored samples t v.old)
    where
      ends :
          (r : Result (Unit {0}) × Tables)
          → Atomic stored samples t r
          → WriteEnd start journal samples r
      ends (ok x, u) s = Stored-Represents start journal samples t u v s
      ends (err e, u) same = subst (Represents stored start journal) (sym same) v
