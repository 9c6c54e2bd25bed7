-- ===== src/Storage/Migration/Checks.antt =====
-- The checks of the columns in src/storage/migration.py.
use sensorctl.Prelude.{
  ◌≡◌, refl, String, Bool, true, false, Option, none, some, List, [], ◌∷◌, All, Result, ok, err,
  require-eq-ok, or_raise-eq-ok, require, or_raise, runtime_error,
}
use sensorctl.Prelude.{
  ◌>>=◌ as ◌>>>=◌, ◌>>◌ as ◌>>>◌, >>=-eq-ok as >>>=-eq-ok, >>-eq-ok as >>>-eq-ok,
}
use sensorctl.Prelude.Dict.{Dict, lookup}
use sensorctl.Storage.Migration.{Schema, includes, check_table, check_tables}

-- Each of the tables is there, with at least its columns.
abbrev pub HasTable : Schema → String × List String → Type 0
HasTable s p =
    (actual : List String) × (lookup p.0 s.tables ≡ some actual) × (includes actual p.1 ≡ true)

abbrev pub Conforms : Schema → Dict (List String) → Type 0
Conforms s expected = All (HasTable s) expected

-- The checks raise `RuntimeError` and nothing else.
abbrev pub OnlyRuntime {ℓ} : {A : Type ℓ} → Result A → Type 0
OnlyRuntime (ok a) = Unit
OnlyRuntime (err e) = e.kind ≡ runtime_error

bind-OnlyRuntime :
    {A B : Type 0} (r : Result A) (f : A → Result B)
    → OnlyRuntime r
    → ((a : A) → OnlyRuntime (f a))
    → OnlyRuntime (r >>>= f)
bind-OnlyRuntime (ok a) f h k = k a
bind-OnlyRuntime (err e) f h k = h

then-OnlyRuntime :
    {B : Type 0} (r : Result (Unit {0})) (q : Result B)
    → OnlyRuntime r
    → OnlyRuntime q
    → OnlyRuntime (r >>> q)
then-OnlyRuntime (ok a) q h k = k
then-OnlyRuntime (err e) q h k = h

require-OnlyRuntime : (b : Bool) (m : String) → OnlyRuntime (require b runtime_error m)
require-OnlyRuntime true m = tt
require-OnlyRuntime false m = refl

or_raise-OnlyRuntime :
    {A : Type 0} (o : Option A) (m : String) → OnlyRuntime (or_raise o runtime_error m)
or_raise-OnlyRuntime none m = refl
or_raise-OnlyRuntime (some a) m = tt

module _ (missing unknown : String → String) (s : Schema) where
  pub check_tables-Conforms :
      (expected : Dict (List String))
      → check_tables missing unknown s expected ≡ ok tt
      → Conforms s expected
  unfolding check_tables
  check_tables-Conforms [] h = tt
  check_tables-Conforms ((table, columns) ∷ expected) h =
      let (first, rest) =
        >>>-eq-ok (check_table missing unknown s table columns)
          (check_tables missing unknown s expected) h in
      let (actual, found, fits) =
        >>>=-eq-ok (or_raise (lookup table s.tables) runtime_error (missing table))
          (λ actual. require (includes actual columns) runtime_error (unknown table)) first in
      (
        (
          actual,
          or_raise-eq-ok (lookup table s.tables) runtime_error (missing table) found,
          require-eq-ok (includes actual columns) runtime_error (unknown table) fits,
        ),
        check_tables-Conforms expected rest,
      )

  pub check_tables-OnlyRuntime :
      (expected : Dict (List String)) → OnlyRuntime (check_tables missing unknown s expected)
  unfolding check_tables
  check_tables-OnlyRuntime [] = tt
  check_tables-OnlyRuntime ((table, columns) ∷ expected) =
      then-OnlyRuntime (check_table missing unknown s table columns)
        (check_tables missing unknown s expected)
        (bind-OnlyRuntime (or_raise (lookup table s.tables) runtime_error (missing table))
          (λ actual. require (includes actual columns) runtime_error (unknown table))
          (or_raise-OnlyRuntime (lookup table s.tables) (missing table))
          (λ actual. require-OnlyRuntime (includes actual columns) (unknown table)))
        (check_tables-OnlyRuntime expected)

  pub Conforms-check_tables :
      (expected : Dict (List String))
      → Conforms s expected
      → check_tables missing unknown s expected ≡ ok tt
  unfolding check_tables
  Conforms-check_tables [] h = refl
  Conforms-check_tables ((table, columns) ∷ expected) ((actual, found, fits), more) =
      rw (found, fits, Conforms-check_tables expected more) refl
