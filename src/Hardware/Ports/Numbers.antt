-- ===== src/Hardware/Ports/Numbers.antt =====
-- The numbers in the names of the devices of src/hw/transports, for buses that the loader accepted.
use Prim.Native.Char.{Char, code}
use sensorctl.Prelude.{
  ℕ, ◌<◌, ltb→lt, forbid-cases, ◌+◌, ◌*◌, ◌≤◌, ◌⊎◌, false, none, Option-cases, Result, err,
  value_error, is_blank, sym, ◌-◌, ◌≡◌, refl, ap, subst, forbid-eq-ok, or_raise, ◌<>◌, ◌∙◌, String,
  Bool, true, Option, some, arith, is_digits, all_digits, is_digit_code, remove_prefix, ltb,
  Bool-cases, inl, inr, ok, config_error,
}
use sensorctl.Config.Bus.{BusConfig, i2c, load_bus, require_device, check_device_name, i2c_name}
use sensorctl.Config.Toml.{Value}
use sensorctl.Config.Paths.{FilePath, path_of, path_name}
use sensorctl.Config.Load.Checked.{ok_of_Loads}
use sensorctl.Config.Load.Valid.{IsBus, HasDevice, load_bus_lem}
use sensorctl.Hardware.Ports.{digit_value, add_digit, decimal, text_length, int_of, bus_number}

module _ (is_digit : ℕ → Bool) (value : ℕ → Option ℕ) where
  -- A character of the text outside ASCII that counts as a digit and has no value.
  abbrev HasCode : ℕ → String → Type 0
  HasCode c String.[] = ⊥
  HasCode c (String.◌∷◌ x s) = (code x ≡ c) ⊎ HasCode c s

  abbrev pub Valueless : String → Type 0
  Valueless s = (c : ℕ) × HasCode c s × (128 ≤ c) × (is_digit c ≡ true) × (value c ≡ none)

  Valueless-more : (x : Char) (s : String) → Valueless s → Valueless (String.◌∷◌ x s)
  Valueless-more x s (c, there, high, digit, missing) = (c, inr there, high, digit, missing)

  digit_lem :
      (c : ℕ)
      → is_digit_code is_digit c ≡ true
      → ((d : ℕ) × (digit_value value c ≡ some d))
        ⊎ ((128 ≤ c) × (is_digit c ≡ true) × (value c ≡ none) × (digit_value value c ≡ none))
  unfolding is_digit_code
  digit_lem c h = elim (Bool-cases (ltb c 128)) [
    | inl low ↦ inl (c - 48, ground (arith, low, h))
    | inr high ↦ elim (Option-cases (value c)) [
      | inl missing ↦
          inr
            (ground (arith, high), ground (arith, high, h), missing, ground (arith, high, missing))
      | inr (d, e) ↦ inl (d, ground (arith, high, e))
    ]
  ]

  decimal_lem :
      (s : String) (n : ℕ)
      → all_digits is_digit s ≡ true
      → ((m : ℕ) × (decimal value s n ≡ some m)) ⊎ (Valueless s × (decimal value s n ≡ none))
  unfolding decimal all_digits
  decimal_lem String.[] n h = inl (n, refl)
  decimal_lem (String.◌∷◌ c s) n h = elim (digit_lem (code c) (ground (arith, h))) [
    | inl (d, e) ↦
        let first = ap (λ o. add_digit n o (decimal value s)) e in
        elim (decimal_lem s (n * 10 + d) (ground (arith, h))) [
          | inl (m, k) ↦ inl (m, first ∙ k)
          | inr (missing, k) ↦ inr (Valueless-more c s missing, first ∙ k)
        ]
    | inr (high, digit, missing, e) ↦
        inr ((code c, inl refl, high, digit, missing), ap (λ o. add_digit n o (decimal value s)) e)
  ]

  -- What `int` makes of a text of digits.
  abbrev pub NumberEnd : String → Result ℕ → Type 0
  NumberEnd s (ok n) = decimal value s 0 ≡ some n
  NumberEnd s (err e) = (e.kind ≡ value_error) × (Valueless s ⊎ (4300 < text_length s))

  int_of_lem : (s : String) → is_digits is_digit s ≡ true → NumberEnd s (int_of value s)
  unfolding int_of is_digits
  int_of_lem s h =
      let some_text : is_blank s ≡ false = ground (arith, h) in
      let decimal_of = λ (o : Option ℕ).
        NumberEnd s (or_raise o value_error "invalid literal for int() with base 10") in
      forbid-cases (NumberEnd s) value_error _ (ltb 4300 (text_length s)) _
        (λ long. (refl, inr (ltb→lt 4300 (text_length s) long)))
        (λ _. rw some_text (elim (decimal_lem s 0 (ground (arith, h))) [
          | inl (m, e) ↦ subst decimal_of (sym e) e
          | inr (missing, e) ↦ subst decimal_of (sym e) (refl, inl missing)
        ]))

  i2c_digits :
      (bus_id name : String)
      → i2c_name is_digit bus_id name ≡ ok tt
      → is_digits is_digit (remove_prefix name "i2c-") ≡ true
  unfolding i2c_name
  i2c_digits bus_id name h = ground (arith, forbid-eq-ok _ _ _ h)

  of_device :
      (bus : BusConfig)
      → bus.bus_type ≡ i2c
      → HasDevice is_digit bus
      → (device : FilePath) × (require_device bus ≡ ok device)
        × NumberEnd (remove_prefix (path_name device) "i2c-") (bus_number value device)
  unfolding require_device bus_number check_device_name
  of_device bus on_i2c (text, _, given, fits) =
      let name = path_name (path_of text) in
      (
        path_of text,
        ap (λ o. or_raise o config_error ("bus " <> (bus.id <> " does not have a device"))) given,
        int_of_lem (remove_prefix name "i2c-") (
            i2c_digits bus.id name
              (subst (λ t. check_device_name is_digit bus.id t name ≡ ok tt) on_i2c fits)),
      )

  -- An I2C bus that the loader accepts has a device whose name without `i2c-` is a number, and opening
  -- its transport gets that number, or fails on the name with `ValueError`: only if the number has a
  -- character outside ASCII that counts as a digit but has no value, or more than 4300 digits.
  pub load_bus-bus_number :
      (name : String) (raw : Value) (bus : BusConfig)
      → load_bus is_digit name raw ≡ ok bus
      → bus.bus_type ≡ i2c
      → (device : FilePath) × (require_device bus ≡ ok device)
        × NumberEnd (remove_prefix (path_name device) "i2c-") (bus_number value device)
  load_bus-bus_number name raw bus loads on_i2c =
      elim (ok_of_Loads (IsBus is_digit name) (load_bus is_digit name raw) bus
        (load_bus_lem is_digit name raw) loads).fits [
          | inl (on_mock, _) ↦ cc
          | inr has_device ↦ of_device bus on_i2c has_device
        ]
