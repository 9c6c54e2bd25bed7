-- ===== src/Hardware/Bmp280/Reading.antt =====
-- `read` of the driver in src/hw/drivers/bmp280.py, on every way out.
use sensorctl.Prelude.{
  ℕ, ◌+◌, ◌*◌, ◌/◌, ◌^◌, ◌<◌, ◌≡◌, refl, ap, sym, ◌∙◌, subst, arith, ◌⊎◌, inl, inr, none, some,
  List, [], ◌∷◌, length, All, Result, ok, err, require, or_raise, or_raise-eq-ok, or_raise-eq-err,
  runtime_error, type_error,
}
use sensorctl.Prelude.{>>=-eq-ok as >>>=-eq-ok, Option-cases, Result-cases}
use sensorctl.Prelude.Dict.{Dict}
use sensorctl.Prelude.Exec.{Exec, lift, ◌>>=◌, ◌>>◌, >>=-through}
use sensorctl.Model.{Float}
use sensorctl.Hardware.Bmp280.Calibration.{Calibration}
use sensorctl.Hardware.Bmp280.Calibration.Layout.{IsByte}
use sensorctl.Hardware.Bmp280.Compensate.{FloatOps, compensate_temperature, compensate_pressure}
use sensorctl.Hardware.Bmp280.Sensor.{
  Board, Session, control_register, data_register, read_register, write_register, sleep,
  wait_until_ready, on_world, code_of, control_byte, measurement_time_ns, measure, fetch,
  raw_values, raw_value, to_values, read,
}
use sensorctl.Hardware.Bmp280.Raw.{raw_value_lem}
use sensorctl.Hardware.Bmp280.Wait.{read_register-length}
use sensorctl.Hardware.Bmp280.Session.{HasBytes, on_world-cases, lift-cases, read_register-IsByte}

-- The number that three bytes spell, without its lowest four bits.
abbrev pub upper_20 : ℕ → ℕ → ℕ → ℕ
upper_20 high middle low = (high * 65536 + middle * 256 + low) / 16

-- The values of six bytes of measurement.
pub record Measured (o : FloatOps) (c : Calibration) (bytes : List ℕ) (found : Dict Float)
    : Type 0 where
  pub pressure_raw : ℕ
  pub temperature_raw : ℕ
  pub temperature : Float
  pub fine : Float
  pub pressure : Float
  pub in_bytes :
      (b0 b1 b2 b3 b4 b5 : ℕ) × (bytes ≡ (b0 ∷ b1 ∷ b2 ∷ b3 ∷ b4 ∷ b5 ∷ []))
      × (pressure_raw ≡ upper_20 b0 b1 b2)
      × (temperature_raw ≡ upper_20 b3 b4 b5)
  pub small : (pressure_raw < 2 ^ 20) × (temperature_raw < 2 ^ 20)
  pub compensated : compensate_temperature o temperature_raw c ≡ (temperature, fine)
  pub pressure_ok : compensate_pressure o pressure_raw fine c ≡ ok pressure
  pub both : found ≡ (("temperature", temperature) ∷ ("pressure", pressure) ∷ [])

to_values-Measured :
    (o : FloatOps) (c : Calibration) (bytes : List ℕ) (raw : ℕ × ℕ) (found : Dict Float)
    → length bytes ≡ 6
    → All IsByte bytes
    → raw_values bytes ≡ ok raw
    → to_values o c raw ≡ ok found
    → Measured o c bytes found
unfolding to_values
to_values-Measured o c (b0 ∷ b1 ∷ b2 ∷ b3 ∷ b4 ∷ b5 ∷ []) raw found six real given h =
    let (p, fits_p) = raw_value_lem b0 b1 b2 real.0 real.1.0 real.1.1.0 in
    let (t, fits_t) = raw_value_lem b3 b4 b5 real.1.1.1.0 real.1.1.1.1.0 real.1.1.1.1.1.0 in
    let both : (raw_value b0 b1 b2, raw_value b3 b4 b5) ≡ raw = ground (arith, given) in
    let step = compensate_temperature o raw.1 c in
    let (pressure, worked, rest) =
      >>>=-eq-ok (compensate_pressure o raw.0 step.1 c)
        (λ pressure. ok (("temperature", step.0) ∷ ("pressure", pressure) ∷ [])) h in
    record {
      pressure_raw = raw.0;
      temperature_raw = raw.1;
      temperature = step.0;
      fine = step.1;
      pressure = pressure;
      in_bytes = (
        b0,
        b1,
        b2,
        b3,
        b4,
        b5,
        refl,
        ap (λ r. r.0) (sym both) ∙ p,
        ap (λ r. r.1) (sym both) ∙ t,
      );
      small = subst (λ (r : ℕ × ℕ). (r.0 < 2 ^ 20) × (r.1 < 2 ^ 20)) both (fits_p, fits_t);
      compensated = refl;
      pressure_ok = worked;
      both = ground (arith, rest);
    }
to_values-Measured o c bytes raw found six real given h = absurd (omega (arith, six))

module _ {W : Type 0} (b : Board W) (o : FloatOps) where
  -- What `read` leaves. Without a calibration nothing happened at all.
  abbrev pub ReadEnd : Session W → Result (Dict Float) × Session W → Type 0
  ReadEnd s (ok found, t) =
      (c : Calibration) × (w : W) × (bytes : List ℕ) × (s.driver.calibration ≡ some c)
      × (read_register b s.driver.address data_register 6 w ≡ (ok bytes, t.world))
      × Measured o c bytes found
      × (t.driver ≡ s.driver)
  ReadEnd s (err e, t) =
      (t.driver ≡ s.driver)
      × (((s.driver.calibration ≡ none) × (t ≡ s))
          ⊎ ((c : Calibration) × (s.driver.calibration ≡ some c)))

  abbrev Keeps : Session W → Result (Unit {0}) × Session W → Type 0
  Keeps s r = r.1.driver ≡ s.driver

  measure-Keeps : (s : Session W) → Keeps s (measure b s.driver s)
  unfolding measure
  measure-Keeps s =
      let d = s.driver in
      let wait = on_world b (wait_until_ready b d.address) in
      let rest = on_world b (sleep b (measurement_time_ns d)) >> wait in
      let command =
        λ (tc pc : ℕ). write_register b d.address control_register (control_byte tc pc) in
      lift-cases b (Keeps s) (code_of d.temperature_oversampling)
        (λ tc. lift (code_of d.pressure_oversampling) >>= λ pc. on_world b (command tc pc) >> rest)
        s
        (λ tc _.
          lift-cases b (Keeps s) (code_of d.pressure_oversampling)
            (λ pc. on_world b (command tc pc) >> rest) s
            (λ pc _.
              on_world-cases b (Keeps s) (command tc pc) (λ _. rest) s (λ _ w _. refl)
                (λ _ _ _. refl))
            (λ _ _. refl))
        (λ _ _. refl)

  module _ (real : HasBytes b) (s : Session W) (c : Calibration) where
    abbrev Fetched : Result (ℕ × ℕ) × Session W → Type 0
    Fetched (ok raw, t) =
        (w : W) × (bytes : List ℕ) × (read_register b s.driver.address data_register 6 w
          ≡ (ok bytes, t.world))
        × (length bytes ≡ 6)
        × All IsByte bytes
        × (raw_values bytes ≡ ok raw)
        × (t.driver ≡ s.driver)
    Fetched (err e, t) = t.driver ≡ s.driver

    fetch-Fetched : (t : Session W) → t.driver ≡ s.driver → Fetched (fetch b s.driver.address t)
    unfolding fetch
    fetch-Fetched t same =
        on_world-cases b Fetched (read_register b s.driver.address data_register 6)
          (λ bytes. lift (raw_values bytes)) t
          (λ bytes w sent.
            let found : (read_register b s.driver.address data_register 6 t.world).0 ≡ ok bytes =
              ap (λ r. r.0) sent in
            elim (Result-cases (raw_values bytes)) [
              | inl (raw, given) ↦
                  subst (λ r. Fetched (r, record t { world = w })) (sym given)
                    (
                      t.world,
                      bytes,
                      sent,
                      read_register-length b s.driver.address data_register 6 t.world bytes found,
                      read_register-IsByte b real s.driver.address data_register 6 t.world bytes
                          found,
                      given,
                      same,
                    )
              | inr (e, refused) ↦
                  subst (λ r. Fetched (r, record t { world = w })) (sym refused) same
            ])
          (λ e w _. same)

    fetch-ReadEnd :
        (t : Session W)
        → s.driver.calibration ≡ some c
        → t.driver ≡ s.driver
        → ReadEnd s ((fetch b s.driver.address >>= λ raw. lift (to_values o c raw)) t)
    fetch-ReadEnd t have same =
        >>=-through Fetched (ReadEnd s) (fetch b s.driver.address) (λ raw. lift (to_values o c raw))
          t (fetch-Fetched t same)
          (λ raw t' (w, bytes, sent, six, small, given, kept).
            elim (Result-cases (to_values o c raw)) [
              | inl (found, worked) ↦
                  subst (λ r. ReadEnd s (r, t')) (sym worked)
                    (
                      c,
                      w,
                      bytes,
                      have,
                      sent,
                      to_values-Measured o c bytes raw found six small given worked,
                      kept,
                    )
              | inr (e, failed) ↦ subst (λ r. ReadEnd s (r, t')) (sym failed) (kept, inr (c, have))
            ])
          (λ e t' kept. (kept, inr (c, have)))

    calibrated-ReadEnd :
        s.driver.calibration ≡ some c
        → ReadEnd s (
            (measure b s.driver >> (fetch b s.driver.address >>= λ raw. lift (to_values o c raw)))
              s)
    calibrated-ReadEnd have =
        >>=-through (Keeps s) (ReadEnd s) (measure b s.driver)
          (λ _. fetch b s.driver.address >>= λ raw. lift (to_values o c raw)) s (measure-Keeps s)
          (λ _ t same. fetch-ReadEnd t have same) (λ e t same. (same, inr (c, have)))

  abbrev stored : Session W → Result Calibration
  stored s = or_raise s.driver.calibration runtime_error "BMP280 driver is not initialized"

  abbrev rest : Session W → Calibration → Exec (Session W) (Dict Float)
  rest s c = measure b s.driver >> (fetch b s.driver.address >>= λ raw. lift (to_values o c raw))

  -- When `read` returns, the driver had a calibration, and the values are the two that the formulas
  -- give, with that calibration, for the 20-bit numbers in the last six bytes that came from the data
  -- registers; when it raises without a calibration, nothing happened. The driver stays as it is. What
  -- comes from the bus is bytes.
  pub read-ReadEnd : HasBytes b → (s : Session W) → ReadEnd s (read b o s)
  unfolding read
  read-ReadEnd real s =
      lift-cases b (ReadEnd s)
        (require b.has_transfer type_error "BMP280 requires an I2C transport")
        (λ _. lift (stored s) >>= rest s) s
        (λ _ _.
          lift-cases b (ReadEnd s) (stored s) (rest s) s
            (λ c h. calibrated-ReadEnd real s c (or_raise-eq-ok s.driver.calibration _ _ h))
            (λ e h. (refl, inl (or_raise-eq-err s.driver.calibration _ _ h, refl))))
        (λ e _. (
          refl,
          elim (Option-cases s.driver.calibration) [
            | inl lost ↦ inl (lost, refl)
            | inr known ↦ inr known
          ],
        ))
