-- ===== src/Prelude/Outcome.antt =====
-- Python's exceptions as values: an exception is its class and its text.
use Prim.Native.String.{String}
use mathlib.Core.Bool.{Bool, true, false}
use mathlib.Core.Option.{Option, none, some}
use mathlib.Core.Logic.{◌⊎◌, inl, inr}
use mathlib.Core.Path.{◌≡◌, refl}

-- The classes that the program raises or names, or that reach it from what it calls.
pub data Kind : Type 0 where
  config_error runtime_error value_error type_error key_error assertion_error : Kind
  timeout_error permission_error os_error integrity_error unicode_error index_error struct_error
        json_error attribute_error operational_error toml_decode_error overflow_error :
      Kind

-- `type(error).__name__`
abbrev pub type_name : Kind → String
type_name config_error = "ConfigError"
type_name runtime_error = "RuntimeError"
type_name value_error = "ValueError"
type_name type_error = "TypeError"
type_name key_error = "KeyError"
type_name assertion_error = "AssertionError"
type_name timeout_error = "TimeoutError"
type_name permission_error = "PermissionError"
type_name os_error = "OSError"
type_name integrity_error = "IntegrityError"
type_name unicode_error = "UnicodeDecodeError"
type_name index_error = "IndexError"
type_name struct_error = "error"
type_name json_error = "JSONDecodeError"
type_name attribute_error = "AttributeError"
type_name operational_error = "OperationalError"
type_name toml_decode_error = "TOMLDecodeError"
type_name overflow_error = "OverflowError"

pub record Exception : Type 0 where
  pub kind : Kind
  pub message : String

pub data Result {ℓ} (A : Type ℓ) : Type ℓ where
  ok : A → Result A
  err : Exception → Result A

abbrev pub raise {ℓ} : {A : Type ℓ} → Kind → String → Result A
raise k m = err (record { kind = k; message = m })

-- The statement after one that may have raised.
infixl 5 ◌>>=◌
abbrev pub ◌>>=◌ {ℓ κ} : {V : Type ℓ} {W : Type κ} → Result V → (V → Result W) → Result W
ok v >>= next = next v
err raised >>= next = err raised

infixl 5 ◌>>◌
abbrev pub ◌>>◌ {κ} : {W : Type κ} → Result (Unit {0}) → Result W → Result W
ok done >> next = next
err raised >> next = err raised

-- `if not test: raise`
abbrev pub require : Bool → Kind → String → Result (Unit {0})
require true k m = ok tt
require false k m = raise k m

-- `if test: raise`
abbrev pub forbid : Bool → Kind → String → Result (Unit {0})
forbid true k m = raise k m
forbid false k m = ok tt

-- `d[k]` after a lookup.
abbrev pub or_raise {ℓ} : {A : Type ℓ} → Option A → Kind → String → Result A
or_raise none k m = raise k m
or_raise (some a) k m = ok a

-- A value that comes out went through both statements.
pub >>=-eq-ok {ℓ κ} :
    {V : Type ℓ} {W : Type κ} (r : Result V) (next : V → Result W) {w : W}
    → (r >>= next) ≡ ok w
    → (v : V) × (r ≡ ok v) × (next v ≡ ok w)
>>=-eq-ok (err raised) next h = cc
>>=-eq-ok (ok v) next h = (v, refl, h)

pub >>-eq-ok {κ} :
    {W : Type κ} (r : Result (Unit {0})) (next : Result W) {w : W}
    → (r >> next) ≡ ok w
    → (r ≡ ok tt) × (next ≡ ok w)
>>-eq-ok (err raised) next h = cc
>>-eq-ok (ok done) next h = (refl, h)

pub require-eq-ok :
    (b : Bool) (k : Kind) (m : String) {u : Unit {0}} → require b k m ≡ ok u → b ≡ true
require-eq-ok true k m h = refl
require-eq-ok false k m h = cc

pub forbid-eq-ok :
    (b : Bool) (k : Kind) (m : String) {u : Unit {0}} → forbid b k m ≡ ok u → b ≡ false
forbid-eq-ok true k m h = cc
forbid-eq-ok false k m h = refl

pub or_raise-eq-ok {ℓ} :
    {A : Type ℓ} (o : Option A) (k : Kind) (m : String) {a : A} → or_raise o k m ≡ ok a → o ≡ some a
or_raise-eq-ok none k m h = cc
or_raise-eq-ok (some a) k m h = cc

pub Result-cases {ℓ} :
    {A : Type ℓ} (r : Result A) → ((a : A) × (r ≡ ok a)) ⊎ ((e : Exception) × (r ≡ err e))
Result-cases (ok a) = inl (a, refl)
Result-cases (err e) = inr (e, refl)

-- Rules for statements that may raise: what holds of each way out holds of the whole.
module _ {ℓ κ} {W : Type κ} (P : Result W → Type ℓ) (k : Kind) (m : String) where
  pub forbid-cases :
      (test : Bool) (next : Result W)
      → (test ≡ true → P (raise k m))
      → (test ≡ false → P next)
      → P (forbid test k m >> next)
  forbid-cases true next stop pass = stop refl
  forbid-cases false next stop pass = pass refl

  pub require-cases :
      (test : Bool) (next : Result W)
      → (test ≡ false → P (raise k m))
      → (test ≡ true → P next)
      → P (require test k m >> next)
  require-cases true next stop pass = pass refl
  require-cases false next stop pass = stop refl

  pub or_raise-cases {μ} :
      {V : Type μ} (found : Option V) (next : V → Result W)
      → (found ≡ none → P (raise k m))
      → ((v : V) → found ≡ some v → P (next v))
      → P (or_raise found k m >>= next)
  or_raise-cases none next stop pass = stop refl
  or_raise-cases (some v) next stop pass = pass v refl

pub >>=-cases {ℓ κ μ} :
    {V : Type ℓ} {W : Type κ} (P : Result W → Type μ) (r : Result V) (next : V → Result W)
    → ((e : Exception) → r ≡ err e → P (err e))
    → ((v : V) → r ≡ ok v → P (next v))
    → P (r >>= next)
>>=-cases P (err e) next stop pass = stop e refl
>>=-cases P (ok v) next stop pass = pass v refl

pub or_raise-eq-err {ℓ} :
    {A : Type ℓ} (o : Option A) (k : Kind) (m : String) {e : Exception}
    → or_raise o k m ≡ err e
    → o ≡ none
or_raise-eq-err none k m h = refl
or_raise-eq-err (some a) k m h = cc

pub require-eq-err :
    (b : Bool) (k : Kind) (m : String) {e : Exception}
    → require b k m ≡ err e
    → (b ≡ false) × (record { kind = k; message = m } ≡ e)
require-eq-err true k m h = cc
require-eq-err false k m h = (refl, cc)
