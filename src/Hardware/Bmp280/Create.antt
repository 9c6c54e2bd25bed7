-- ===== src/Hardware/Bmp280/Create.antt =====
-- The constructor of the driver in src/hw/drivers/bmp280.py.
use sensorctl.Prelude.{
  ℕ, ◌≡◌, refl, subst, ◌⊎◌, inl, inr, Bool, true, false, ◌&&◌, ◌||◌, Option, none, some, String,
  List, [], ◌∷◌, arith, all, is_empty, least, least-cons, ◌==◌, config_error, Result, ok, err,
  if-cases, ==_iff, ◌>>=◌, ◌>>◌,
}
use sensorctl.Prelude.Int.{pos, negsuc}
use sensorctl.Prelude.Dict.{lookup, keys, mem}
use sensorctl.Config.Toml.{Value, int}
use sensorctl.Config.Fields.{unknown_keys, get_or_default}
use sensorctl.Config.Sensor.{SensorConfig}
use sensorctl.Hardware.Mock.Options.{unknown_empty}
use sensorctl.Hardware.Bmp280.Options.{
  Bmp280, option_keys, raise_unknown, oversampling_code, oversampling_value, oversampling_option,
  in_codes, valid_address, validate_options, new_bmp280,
}

-- An integer that the chip can oversample by.
abbrev pub is_oversampling : Value → Bool
is_oversampling (int (pos n)) = n == 1 || (n == 2 || (n == 4 || (n == 8 || n == 16)))
is_oversampling _ = false

abbrev pub is_bmp280_address : Option ℕ → Bool
is_bmp280_address none = false
is_bmp280_address (some a) = a == 0x76 || a == 0x77

abbrev option : SensorConfig → String → Value
option sensor name = get_or_default (lookup name sensor.options) (int (pos 1))

-- Only known options, each with a value that the chip knows, and one of its two addresses.
abbrev pub is_bmp280 : SensorConfig → Bool
is_bmp280 sensor =
    all (λ k. mem k option_keys) (keys sensor.options)
    && (is_oversampling (option sensor "temperature_oversampling")
        && (is_oversampling (option sensor "pressure_oversampling")
            && is_bmp280_address sensor.address))

-- A driver that `read` finds codes for.
pub record IsFitted (d : Bmp280) : Type 0 where
  pub address : (d.address ≡ 0x76) ⊎ (d.address ≡ 0x77)
  pub temperature_code : (c : ℕ) × (oversampling_code d.temperature_oversampling ≡ some c)
  pub pressure_code : (c : ℕ) × (oversampling_code d.pressure_oversampling ≡ some c)

-- A test that raises `ConfigError` exactly if a condition is false.
abbrev pub Verdict : {A : Type 0} → (A → Type 0) → Bool → Result A → Type 0
Verdict Q test (ok a) = (test ≡ true) × Q a
Verdict Q test (err e) = (test ≡ false) × (e.kind ≡ config_error)

abbrev HasCode : ℕ → Type 0
HasCode n = (c : ℕ) × (oversampling_code n ≡ some c)

abbrev HasAddress : ℕ → Type 0
HasAddress a = (a ≡ 0x76) ⊎ (a ≡ 0x77)

in_codes-Verdict :
    (o : Option ℕ) (n : ℕ) (name : String)
    → oversampling_code n ≡ o
    → Verdict HasCode (is_oversampling (int (pos n))) (in_codes o n name)
in_codes-Verdict none n name h = (ground (arith, h), refl)
in_codes-Verdict (some c) n name h = (ground (arith, h), (c, h))

oversampling_value-Verdict :
    (v : Value) (name : String) → Verdict HasCode (is_oversampling v) (oversampling_value v name)
oversampling_value-Verdict (int (pos n)) name = in_codes-Verdict (oversampling_code n) n name refl
oversampling_value-Verdict (int (negsuc n)) name = (refl, refl)
oversampling_value-Verdict _ name = (refl, refl)

valid_address-Verdict : (o : Option ℕ) → Verdict HasAddress (is_bmp280_address o) (valid_address o)
valid_address-Verdict none = (refl, refl)
valid_address-Verdict (some a) =
    if-cases (Verdict HasAddress (is_bmp280_address (some a))) (a == 0x76) _ _
      (λ h. (ground (arith, h), inl ((==_iff a 0x76).0 h)))
      (λ g.
        if-cases (Verdict HasAddress (is_bmp280_address (some a))) (a == 0x77) _ _
          (λ h. (ground (arith, h), inr ((==_iff a 0x77).0 h))) (λ h. (ground (arith, g, h), refl)))

raise_unknown-Verdict :
    (ks : List String) → Verdict (λ _. Unit) (is_empty ks) (raise_unknown (least ks))
unfolding least
raise_unknown-Verdict [] = (refl, tt)
raise_unknown-Verdict (k ∷ ks) = found (least (k ∷ ks)) (least-cons k ks)
  where
    found : (o : Option String) → (o ≡ none → ⊥) → Verdict (λ _. Unit) false (raise_unknown o)
    found none h = absurd (h refl)
    found (some x) h = (refl, refl)

-- The constructor from the outcomes of its tests.
abbrev assemble : Result (Unit {0}) → Result ℕ → Result ℕ → Result ℕ → Result Bmp280
assemble u t p a =
    (u >> (t >>= λ _. p >>= λ _. ok tt))
    >> (a >>= λ address. t >>= λ temperature. p >>= λ pressure. ok (record {
      address = address;
      temperature_oversampling = temperature;
      pressure_oversampling = pressure;
      calibration = none;
    }))

abbrev pub IsNew : Bmp280 → Type 0
IsNew d = IsFitted d × (d.calibration ≡ none)

assemble-Verdict :
    (bu bt bp ba : Bool) (u : Result (Unit {0})) (t p a : Result ℕ)
    → Verdict (λ _. Unit) bu u
    → Verdict HasCode bt t
    → Verdict HasCode bp p
    → Verdict HasAddress ba a
    → Verdict IsNew (bu && (bt && (bp && ba))) (assemble u t p a)
assemble-Verdict bu bt bp ba (err e) t p a hu ht hp ha = (ground (arith, hu.0), hu.1)
assemble-Verdict bu bt bp ba (ok u) (err e) p a hu ht hp ha = (ground (arith, ht.0), ht.1)
assemble-Verdict bu bt bp ba (ok u) (ok t) (err e) a hu ht hp ha = (ground (arith, hp.0), hp.1)
assemble-Verdict bu bt bp ba (ok u) (ok t) (ok p) (err e) hu ht hp ha = (ground (arith, ha.0), ha.1)
assemble-Verdict bu bt bp ba (ok u) (ok t) (ok p) (ok a) hu ht hp ha = (
  ground (arith, hu.0, ht.0, hp.0, ha.0),
  (record { address = ha.1; temperature_code = ht.1; pressure_code = hp.1 }, refl),
)

-- The constructor accepts exactly the sensors at one of the two addresses whose options are known and
-- have values that the chip can oversample by, one of 1, 2, 4, 8 and 16, and otherwise raises
-- `ConfigError`; the new driver has no calibration, and `read` finds both codes.
pub new_bmp280-Verdict :
    (sensor : SensorConfig) → Verdict IsNew (is_bmp280 sensor) (new_bmp280 sensor)
unfolding new_bmp280 validate_options oversampling_option
new_bmp280-Verdict sensor =
    let unknown = unknown_keys (keys sensor.options) option_keys in
    let t = option sensor "temperature_oversampling" in
    let p = option sensor "pressure_oversampling" in
    assemble-Verdict (all (λ k. mem k option_keys) (keys sensor.options)) (is_oversampling t)
      (is_oversampling p) (is_bmp280_address sensor.address) (raise_unknown (least unknown))
      (oversampling_value t "temperature_oversampling")
      (oversampling_value p "pressure_oversampling") (valid_address sensor.address)
      (subst (λ test. Verdict (λ _. Unit) test (raise_unknown (least unknown)))
        (unknown_empty (keys sensor.options) option_keys) (raise_unknown-Verdict unknown))
      (oversampling_value-Verdict t "temperature_oversampling")
      (oversampling_value-Verdict p "pressure_oversampling") (valid_address-Verdict sensor.address)
