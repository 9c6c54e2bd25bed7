-- ===== src/Hardware/Registry/Refusals.antt =====
-- How src/hw/drivers/registry.py may refuse a configuration.
use sensorctl.Prelude.{
  ◌≡◌, refl, some, List, [], ◌∷◌, IsIn, Result, Exception, ok, err, ◌>>=◌, ◌⊎◌, inl, inr,
  or_raise-cases, config_error,
}
use sensorctl.Prelude.Dict.{lookup}
use sensorctl.Config.Sensor.{SensorConfig}
use sensorctl.Config.Load.Rules.{Loads}
use sensorctl.Hardware.Driver.{SensorDriver}
use sensorctl.Hardware.Registry.{Factories, create}

module _ (W : Type 0) (factories : Factories W) where
  -- A `ConfigError`, or what the constructor of a driver raised for one of the sensors.
  abbrev pub Refused : List SensorConfig → Exception → Type 0
  Refused sensors e =
      (e.kind ≡ config_error)
      ⊎ ((s : SensorConfig) × (f : SensorConfig → Result (SensorDriver W)) × IsIn s sensors
          × (lookup s.driver factories ≡ some f)
          × (f s ≡ err e))

  abbrev pub Prepares {ℓ} : {A : Type ℓ} → List SensorConfig → (A → Type 0) → Result A → Type 0
  Prepares sensors Q (ok v) = Q v
  Prepares sensors Q (err e) = Refused sensors e

  pub Prepares-bind {ℓ κ} :
      {A : Type ℓ} {B : Type κ} (sensors : List SensorConfig) (Q : A → Type 0) (R : B → Type 0)
      (r : Result A) (f : A → Result B)
      → Prepares sensors Q r
      → ((v : A) → Q v → Prepares sensors R (f v))
      → Prepares sensors R (r >>= f)
  Prepares-bind sensors Q R (ok v) f h next = next v h
  Prepares-bind sensors Q R (err e) f h next = h

  pub Loads-Prepares {ℓ} :
      {A : Type ℓ} (sensors : List SensorConfig) (Q : A → Type 0) (r : Result A)
      → Loads Q r
      → Prepares sensors Q r
  Loads-Prepares sensors Q (ok v) h = h
  Loads-Prepares sensors Q (err e) h = inl h

  Refused-among :
      (few many : List SensorConfig) (e : Exception)
      → ((s : SensorConfig) → IsIn s few → IsIn s many)
      → Refused few e
      → Refused many e
  Refused-among few many e more (inl kind) = inl kind
  Refused-among few many e more (inr (s, f, known, found, made)) =
      inr (s, f, more s known, found, made)

  pub Prepares-map {ℓ} :
      {A : Type ℓ} (few many : List SensorConfig) (Q R : A → Type 0) (r : Result A)
      → ((s : SensorConfig) → IsIn s few → IsIn s many)
      → ((v : A) → Q v → R v)
      → Prepares few Q r
      → Prepares many R r
  Prepares-map few many Q R (ok v) more f h = f v h
  Prepares-map few many Q R (err e) more f h = Refused-among few many e more h

  itself :
      (sensors : List SensorConfig) (r : Result (SensorDriver W))
      → Prepares sensors (λ d. Unit {0}) r
      → Prepares sensors (λ d. r ≡ ok d) r
  itself sensors (ok d) h = refl
  itself sensors (err e) h = h

  pub create_lem :
      (s : SensorConfig)
      → Prepares (s ∷ []) (λ d. create W factories s ≡ ok d) (create W factories s)
  unfolding create
  create_lem s = itself (s ∷ []) (create W factories s) (
      or_raise-cases (Prepares (s ∷ []) (λ (d : SensorDriver W). Unit {0})) config_error _
        (lookup s.driver factories) _ (λ _. inl refl) (λ f found. made f found (f s) refl))
    where
      made :
          (f : SensorConfig → Result (SensorDriver W))
          → lookup s.driver factories ≡ some f
          → (r : Result (SensorDriver W)) → f s ≡ r
          → Prepares (s ∷ []) (λ d. Unit {0}) r
      made f found (ok d) h = tt
      made f found (err e) h = inr (s, f, inl refl, found, h)
