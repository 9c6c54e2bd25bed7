-- ===== src/Config/Load/Rules.antt =====
-- Rules for the readers of src/config.py: the values that come out, and the class of what is raised.
use sensorctl.Prelude.{
  ℕ, ◌≤◌, ◌≡◌, refl, String, Bool, true, false, Option, none, some, List, arith, is_blank, if-cases,
  Result, ok, err, config_error, forbid, require, or_raise, ◌>>=◌, ◌>>◌,
}
use sensorctl.Prelude.Int.{pos, negsuc}
use sensorctl.Prelude.Dict.{Dict}
use sensorctl.Config.Toml.{Value, int, str, table}
use sensorctl.Config.Fields.{
  as_table, raise_unknown, reject_unknown, integer_value, out_of_range, integer, string_value,
  string,
}

-- The value satisfies `Q`, or the exception is a `ConfigError`.
abbrev pub Loads {ℓ} : {A : Type ℓ} → (A → Type 0) → Result A → Type 0
Loads Q (ok v) = Q v
Loads Q (err e) = e.kind ≡ config_error

abbrev pub Any {ℓ} : {A : Type ℓ} → A → Type 0
Any v = Unit {0}

pub Loads-bind {ℓ κ} :
    {A : Type ℓ} {B : Type κ} (Q : A → Type 0) (R : B → Type 0) (r : Result A) (f : A → Result B)
    → Loads Q r
    → ((v : A) → Q v → Loads R (f v))
    → Loads R (r >>= f)
Loads-bind Q R (ok v) f h next = next v h
Loads-bind Q R (err e) f h next = h

pub Loads-seq {κ} :
    {B : Type κ} (R : B → Type 0) (r : Result (Unit {0})) (next : Result B)
    → Loads (Any {A = Unit {0}}) r
    → Loads R next
    → Loads R (r >> next)
Loads-seq R (ok u) next h k = k
Loads-seq R (err e) next h k = h

pub Loads-require {κ} :
    {B : Type κ} (R : B → Type 0) (test : Bool) (m : String) (next : Result B)
    → (test ≡ true → Loads R next)
    → Loads R (require test config_error m >> next)
Loads-require R true m next k = k refl
Loads-require R false m next k = refl

pub Loads-forbid {κ} :
    {B : Type κ} (R : B → Type 0) (test : Bool) (m : String) (next : Result B)
    → (test ≡ false → Loads R next)
    → Loads R (forbid test config_error m >> next)
Loads-forbid R true m next k = refl
Loads-forbid R false m next k = k refl

pub as_table_lem : (v : Value) (name : String) → Loads (Any {A = Dict Value}) (as_table v name)
unfolding as_table
as_table_lem (table t) name = tt
as_table_lem _ name = refl

raise_unknown_lem :
    (k : Option String) (name : String) → Loads (Any {A = Unit {0}}) (raise_unknown k name)
raise_unknown_lem none name = tt
raise_unknown_lem (some k) name = refl

pub reject_unknown_lem :
    (values : Dict Value) (allowed : List String) (name : String)
    → Loads (Any {A = Unit {0}}) (reject_unknown values allowed name)
unfolding reject_unknown
reject_unknown_lem values allowed name = raise_unknown_lem _ name

abbrev pub Within : ℕ → ℕ → ℕ → Type 0
Within lo hi n = (lo ≤ n) × (n ≤ hi)

integer_value_lem :
    (name : String) (lo hi : ℕ) (v : Value) → Loads (Within lo hi) (integer_value name lo hi v)
unfolding integer_value
integer_value_lem name lo hi (int (pos n)) =
    if-cases (Loads (Within lo hi)) _ (ok n) (out_of_range name lo hi) (λ h. ground (arith, h))
      (λ _. unfold out_of_range in refl)
integer_value_lem name lo hi (int (negsuc n)) = refl
integer_value_lem name lo hi _ = refl

-- A number that is read lies within its bounds, the default included.
pub integer_lem :
    (values : Dict Value) (name : String) (default lo hi : ℕ)
    → Loads (Within lo hi) (integer values name default lo hi)
unfolding integer
integer_lem values name default lo hi = integer_value_lem name lo hi _

abbrev pub Nonblank : String → Type 0
Nonblank s = is_blank s ≡ false

string_value_lem : (name : String) (v : Option Value) → Loads Nonblank (string_value name v)
unfolding string_value
string_value_lem name (some (str s)) =
    if-cases (Loads Nonblank) (is_blank s) _ (ok s) (λ _. refl) (λ h. h)
string_value_lem name (some _) = refl
string_value_lem name none = refl

pub string_lem : (values : Dict Value) (name : String) → Loads Nonblank (string values name)
unfolding string
string_lem values name = string_value_lem name _

pub Loads-or_raise {ℓ} :
    {A : Type ℓ} (o : Option A) (m : String) → Loads (Any {A = A}) (or_raise o config_error m)
Loads-or_raise none m = refl
Loads-or_raise (some a) m = tt

pub Loads-imp {ℓ} :
    {A : Type ℓ} (Q R : A → Type 0) (r : Result A) → ((v : A) → Q v → R v) → Loads Q r → Loads R r
Loads-imp Q R (ok v) f h = f v h
Loads-imp Q R (err e) f h = h

-- A statement without a value: what follows may use that it did not raise.
pub Loads-step {κ} :
    {B : Type κ} (R : B → Type 0) (r : Result (Unit {0})) (next : Result B)
    → Loads (Any {A = Unit {0}}) r
    → (r ≡ ok tt → Loads R next)
    → Loads R (r >> next)
Loads-step R (ok u) next h k = k refl
Loads-step R (err e) next h k = h

pub Loads-demands :
    (test : Bool) (m : String) → Loads (Any {A = Unit {0}}) (require test config_error m)
Loads-demands true m = tt
Loads-demands false m = refl

pub Loads-refuses :
    (test : Bool) (m : String) → Loads (Any {A = Unit {0}}) (forbid test config_error m)
Loads-refuses true m = refl
Loads-refuses false m = tt
