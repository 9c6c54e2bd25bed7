-- ===== src/Hardware/Mock/Options.antt =====
-- Which options the driver of src/hw/drivers/mock.py accepts.
use sensorctl.Prelude.{
  ◌≡◌, refl, ◌∙◌, String, Bool, true, false, ◌&&◌, Option, none, some, List, [], ◌∷◌, arith, all,
  is_empty, least, least-cons, Result, ok, err, ◌>>◌, ◌>>=◌, Exception, config_error, ◌⊎◌, inl, inr,
}
use sensorctl.Prelude.Int.{ℤ, pos}
use sensorctl.Prelude.Dict.{Dict, lookup, keys, mem}
use sensorctl.Model.{Float, finite}
use sensorctl.Config.Toml.{Value, int, float}
use sensorctl.Config.Fields.{unknown_keys, get_or_default}
use sensorctl.Config.Sensor.{SensorConfig}
use sensorctl.Config.Load.Rules.{Loads, Any, Loads-seq}
use sensorctl.Config.Load.Topology.{is_ok}
use sensorctl.Hardware.Mock.{
  option_keys, raise_unknown, check_number, validate_options, to_float, MockDriver, new_driver,
}

abbrev pub is_number : Value → Bool
is_number (int n) = true
is_number (float x) = true
is_number _ = false

-- The options are `start` and `step`, and those that are there are numbers.
abbrev pub are_options : Dict Value → Bool
are_options options =
    all (λ k. mem k option_keys) (keys options)
    && (is_number (get_or_default (lookup "start" options) (int (pos 0)))
        && is_number (get_or_default (lookup "step" options) (int (pos 0))))

pub unknown_empty :
    (ks allowed : List String) → is_empty (unknown_keys ks allowed) ≡ all (λ k. mem k allowed) ks
unfolding unknown_keys
unknown_empty [] allowed = refl
unknown_empty (k ∷ ks) allowed = ground (arith, unknown_empty ks allowed)

raise_unknown_ok : (ks : List String) → is_ok (raise_unknown (least ks)) ≡ is_empty ks
unfolding least
raise_unknown_ok [] = refl
raise_unknown_ok (k ∷ ks) = go (least (k ∷ ks)) (least-cons k ks)
  where
    go : (o : Option String) → (o ≡ none → ⊥) → is_ok (raise_unknown o) ≡ false
    go none h = absurd (h refl)
    go (some x) h = refl

check_number_ok : (name : String) (v : Value) → is_ok (check_number name v) ≡ is_number v
unfolding check_number
check_number_ok name (int n) = refl
check_number_ok name (float x) = refl
check_number_ok name _ = refl

raise_unknown-Loads : (k : Option String) → Loads (Any {A = Unit {0}}) (raise_unknown k)
raise_unknown-Loads none = tt
raise_unknown-Loads (some k) = refl

check_number-Loads : (name : String) (v : Value) → Loads (Any {A = Unit {0}}) (check_number name v)
unfolding check_number
check_number-Loads name (int n) = tt
check_number-Loads name (float x) = tt
check_number-Loads name _ = refl

both_ok : (r q : Result (Unit {0})) → is_ok (r >> q) ≡ (is_ok r && is_ok q)
both_ok (ok u) q = refl
both_ok (err e) q = refl

-- The tests pass exactly the options `start` and `step` with numbers, and raise `ConfigError` else.
validate_options-are_options :
    (options : Dict Value)
    → (is_ok (validate_options options) ≡ are_options options)
      × Loads (Any {A = Unit {0}}) (validate_options options)
unfolding validate_options
validate_options-are_options options = (
  both_ok (raise_unknown (least unknown)) _
      ∙ ground (
        arith,
        both_ok (check_number "start" start) (check_number "step" step),
        check_number_ok "start" start,
        check_number_ok "step" step,
        raise_unknown_ok unknown,
        unknown_empty (keys options) option_keys,
      ),
  Loads-seq Any (raise_unknown (least unknown)) _ (raise_unknown-Loads (least unknown)) (
      Loads-seq Any (check_number "start" start) _ (check_number-Loads "start" start)
        (check_number-Loads "step" step)),
)
  where
    unknown : List String
    unknown = unknown_keys (keys options) option_keys

    start : Value
    start = get_or_default (lookup "start" options) (int (pos 0))

    step : Value
    step = get_or_default (lookup "step" options) (int (pos 0))

module _ (of_int : ℤ → Result Float) where
  -- The option is a float, or an integer with that float; no option is the default.
  abbrev pub Reads : Float → Option Value → Float → Type 0
  Reads default none x = x ≡ default
  Reads default (some (float y)) x = x ≡ y
  Reads default (some (int n)) x = of_int n ≡ ok x
  Reads default (some _) x = ⊥

  -- The option is an integer that has no float.
  abbrev pub Overflows : Option Value → Exception → Type 0
  Overflows (some (int n)) e = of_int n ≡ err e
  Overflows _ e = ⊥

  abbrev zero_float : Float
  zero_float = finite (pos 0) 0

  abbrev one_float : Float
  one_float = finite (pos 1) 0

  -- How the constructor ends.
  abbrev pub DriverEnd : Dict Value → Result MockDriver → Type 0
  DriverEnd options (ok d) =
      (are_options options ≡ true)
      × Reads zero_float (lookup "start" options) d.value
      × Reads one_float (lookup "step" options) d.step
  DriverEnd options (err e) =
      ((are_options options ≡ false) × (e.kind ≡ config_error))
      ⊎ ((are_options options ≡ true)
          × (Overflows (lookup "start" options) e ⊎ Overflows (lookup "step" options) e))

  -- One option that passed the test.
  abbrev OptionEnd : Float → Option Value → Result Float → Type 0
  OptionEnd default o (ok x) = Reads default o x
  OptionEnd default o (err e) = Overflows o e

  module _ (add : Float → Float → Float) where
    option_lem :
        (default : Float) (o : Option Value)
        → is_number (get_or_default o (int (pos 0))) ≡ true
        → OptionEnd default o (to_float add of_int (get_or_default o (float default)))
    option_lem default none h = refl
    option_lem default (some (float y)) h = refl
    option_lem default (some (int n)) h = whole (of_int n) refl
      where
        whole : (r : Result Float) → of_int n ≡ r → OptionEnd default (some (int n)) r
        whole (ok x) e = e
        whole (err x) e = e
    option_lem default (some _) h = cc

    both_options :
        (options : Dict Value) (r q : Result Float)
        → are_options options ≡ true
        → OptionEnd zero_float (lookup "start" options) r
        → OptionEnd one_float (lookup "step" options) q
        → DriverEnd options
            (r >>= λ value. (q >>= λ step. ok (record { value = value; step = step })))
    both_options options (err e) q fit h k = inr (fit, inl h)
    both_options options (ok x) (err e) fit h k = inr (fit, inr k)
    both_options options (ok x) (ok y) fit h k = (fit, h, k)

    -- The constructor makes a driver exactly for the options `start` and `step` with numbers that have a
    -- float, and the driver starts with those floats, by default 0.0 and 1.0. Other options it refuses
    -- with `ConfigError`; an integer too large for a float makes it raise what `float` raises.
    pub new_driver-DriverEnd :
        (sensor : SensorConfig) → DriverEnd sensor.options (new_driver add of_int sensor)
    unfolding new_driver
    new_driver-DriverEnd sensor =
        let (passes, loads) = validate_options-are_options sensor.options in
        ends (validate_options sensor.options) passes loads
      where
        rest : Result MockDriver
        rest = do
          value ←
              to_float add of_int
                (get_or_default (lookup "start" sensor.options) (float zero_float))
          step ←
              to_float add of_int (get_or_default (lookup "step" sensor.options) (float one_float))
          ok (record { value = value; step = step })

        ends :
            (r : Result (Unit {0}))
            → is_ok r ≡ are_options sensor.options
            → Loads (Any {A = Unit {0}}) r
            → DriverEnd sensor.options (r >> rest)
        ends (err e) passes kind = inl (ground (arith, passes), kind)
        ends (ok u) passes h =
            let fit : are_options sensor.options ≡ true = ground (arith, passes) in
            both_options sensor.options _ _ fit
              (option_lem zero_float (lookup "start" sensor.options) (ground (arith, fit)))
              (option_lem one_float (lookup "step" sensor.options) (ground (arith, fit)))
