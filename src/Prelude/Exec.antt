-- ===== src/Prelude/Exec.antt =====
-- Code that changes a state and may raise: what it did before it raised stays done.
use mathlib.Core.Path.{◌≡◌, refl}
use sensorctl.Prelude.Outcome.{Result, ok, err, Exception}

abbrev pub Exec {ℓ κ} : Type ℓ → Type κ → Type (ℓ ⊔ κ)
Exec S A = S → Result A × S

abbrev pub pure {ℓ κ} : {S : Type ℓ} {A : Type κ} → A → Exec S A
pure a s = (ok a, s)

abbrev pub throw {ℓ κ} : {S : Type ℓ} {A : Type κ} → Exception → Exec S A
throw e s = (err e, s)

-- A computation on a value only.
abbrev pub lift {ℓ κ} : {S : Type ℓ} {A : Type κ} → Result A → Exec S A
lift r s = (r, s)

abbrev pub then_do {ℓ κ μ} :
    {S : Type ℓ} {A : Type κ} {B : Type μ} → Result A × S → (A → Exec S B) → Result B × S
then_do (ok a, s) f = f a s
then_do (err e, s) f = (err e, s)

infixl 5 ◌>>=◌ ◌>>◌
abbrev pub ◌>>=◌ {ℓ κ μ} :
    {S : Type ℓ} {A : Type κ} {B : Type μ} → Exec S A → (A → Exec S B) → Exec S B
◌>>=◌ m f s = then_do (m s) f

abbrev pub ◌>>◌ {ℓ μ} : {S : Type ℓ} {B : Type μ} → Exec S (Unit {0}) → Exec S B → Exec S B
m >> k = m >>= λ _. k

then_do-cases {ℓ κ μ ν} :
    {S : Type ℓ} {A : Type κ} {B : Type μ} (P : Result B × S → Type ν) (r : Result A) (s : S)
    (f : A → Exec S B)
    → ((a : A) → r ≡ ok a → P (f a s))
    → ((e : Exception) → r ≡ err e → P (err e, s))
    → P (then_do (r, s) f)
then_do-cases P (ok a) s f done failed = done a refl
then_do-cases P (err e) s f done failed = failed e refl

-- What holds where the first step returns, and where it raises, holds of the two steps.
pub >>=-cases {ℓ κ μ ν} :
    {S : Type ℓ} {A : Type κ} {B : Type μ} (P : Result B × S → Type ν) (m : Exec S A)
    (f : A → Exec S B) (s : S)
    → ((a : A) → (m s).0 ≡ ok a → P (f a (m s).1))
    → ((e : Exception) → (m s).0 ≡ err e → P (err e, (m s).1))
    → P ((m >>= f) s)
>>=-cases P m f s done failed = then_do-cases P (m s).0 (m s).1 f done failed

through {ℓ κ μ ν ξ} :
    {S : Type ℓ} {A : Type κ} {B : Type μ} (Q : Result A × S → Type ν) (P : Result B × S → Type ξ)
    (r : Result A × S) (f : A → Exec S B)
    → Q r
    → ((a : A) (t : S) → Q (ok a, t) → P (f a t))
    → ((e : Exception) (t : S) → Q (err e, t) → P (err e, t))
    → P (then_do r f)
through Q P (ok a, t) f q done failed = done a t q
through Q P (err e, t) f q done failed = failed e t q

-- The same from what is known of the first step.
pub >>=-through {ℓ κ μ ν ξ} :
    {S : Type ℓ} {A : Type κ} {B : Type μ} (Q : Result A × S → Type ν) (P : Result B × S → Type ξ)
    (m : Exec S A) (f : A → Exec S B) (s : S)
    → Q (m s)
    → ((a : A) (t : S) → Q (ok a, t) → P (f a t))
    → ((e : Exception) (t : S) → Q (err e, t) → P (err e, t))
    → P ((m >>= f) s)
>>=-through Q P m f s q done failed = through Q P (m s) f q done failed
