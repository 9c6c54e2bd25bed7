-- ===== src/Hardware/Bmp280/Session.antt =====
-- The two operations of the driver in src/hw/drivers/bmp280.py, on every way out.
use sensorctl.Prelude.{
  ℕ, ◌≡◌, refl, ap, sym, ◌∙◌, subst, arith, inl, inr, some, List, [], ◌∷◌, length, All, ◌==◌,
  ==_iff, if-cases, Result, ok, err, Exception, require, require-eq-ok, type_error,
}
use sensorctl.Prelude.{◌>>=◌ as ◌>>>=◌, >>=-eq-ok as >>>=-eq-ok, Result-cases}
use sensorctl.Prelude.Exec.{Exec, lift, ◌>>=◌, ◌>>◌, >>=-cases, >>=-through}
use sensorctl.Hardware.Bmp280.Calibration.{Calibration, unpack}
use sensorctl.Hardware.Bmp280.Calibration.Layout.{pack, InRange, IsByte, unpack-Reads}
use sensorctl.Hardware.Bmp280.Options.{Bmp280}
use sensorctl.Hardware.Bmp280.Sensor.{
  Board, Session, chip_id_register, expected_chip_id, calibration_register, first_byte,
  check_length, read_register, wait_until_ready, on_world, calibrate, check_chip_id, identify,
  load_calibration, initialize, read,
}
use sensorctl.Hardware.Bmp280.Wait.{read_register-length}

module _ {ℓ} {W B : Type 0} (b : Board W) (P : Result B × Session W → Type ℓ) where
  pub on_world-cases {κ} :
      {A : Type κ} (m : Exec W A) (f : A → Exec (Session W) B) (s : Session W)
      → ((a : A) (w : W) → m s.world ≡ (ok a, w) → P (f a (record s { world = w })))
      → ((e : Exception) (w : W) → m s.world ≡ (err e, w) → P (err e, record s { world = w }))
      → P ((on_world b m >>= f) s)
  on_world-cases m f s done failed =
      >>=-cases P (on_world b m) f s (λ a e. done a _ (ap (λ r. (r, (m s.world).1)) e))
        (λ x e. failed x _ (ap (λ r. (r, (m s.world).1)) e))

  pub lift-cases {κ} :
      {A : Type κ} (r : Result A) (f : A → Exec (Session W) B) (s : Session W)
      → ((a : A) → r ≡ ok a → P (f a s))
      → ((e : Exception) → r ≡ err e → P (err e, s))
      → P ((lift r >>= f) s)
  lift-cases r f s done failed = >>=-cases P (lift r) f s done failed

module _ {W : Type 0} (b : Board W) where
  -- What comes from the bus is bytes.
  abbrev pub HasBytes : Type 0
  HasBytes =
      (address : ℕ) (sent : List ℕ) (n : ℕ) (w : W) (bytes : List ℕ)
      → (b.transfer address sent n w).0 ≡ ok bytes
      → All IsByte bytes

  pub read_register-IsByte :
      HasBytes
      → (address register n : ℕ) (w : W) (bytes : List ℕ)
      → (read_register b address register n w).0 ≡ ok bytes
      → All IsByte bytes
  unfolding read_register
  read_register-IsByte real address register n w bytes =
      >>=-cases (λ (r : Result (List ℕ) × W). r.0 ≡ ok bytes → All IsByte bytes)
        (b.transfer address (register ∷ []) n) (λ bytes. lift (check_length b register n bytes)) w
        (λ found e.
          if-cases (λ (r : Result (List ℕ)). r ≡ ok bytes → All IsByte bytes) (length found == n) _
            _
            (λ same h.
              subst (All IsByte) (ground (arith, h)) (real address (register ∷ []) n w found e))
            (λ _ h. cc))
        (λ e _ h. cc)

  -- What `initialize` leaves: the chip had the right number, and the driver has the calibration whose
  -- layout the sensor sent. When it raises, the driver is as it was.
  abbrev pub InitEnd : Session W → Result (Unit {0}) × Session W → Type 0
  InitEnd s (ok u, t) =
      (w w' : W) × (bytes : List ℕ) × (c : Calibration) × (read_register b s.driver.address
          chip_id_register 1 s.world
        ≡ (ok (expected_chip_id ∷ []), w))
      × (read_register b s.driver.address calibration_register 24 w' ≡ (ok bytes, t.world))
      × (pack c ≡ bytes)
      × InRange c
      × (t.driver ≡ record (s.driver) { calibration = some c })
  InitEnd s (err e, t) = t.driver ≡ s.driver

  first_byte_one :
      (bytes : List ℕ) (n : ℕ) → length bytes ≡ 1 → first_byte bytes ≡ ok n → bytes ≡ (n ∷ [])
  first_byte_one [] n one h = cc
  first_byte_one (x ∷ []) n one h = ground (arith, h)
  first_byte_one (x ∷ y ∷ more) n one h = absurd (omega (arith, one))

  calibration_lem :
      HasBytes
      → (address : ℕ) (w w' : W) (bytes : List ℕ) (c : Calibration)
      → read_register b address calibration_register 24 w ≡ (ok bytes, w')
      → unpack bytes ≡ ok c
      → (pack c ≡ bytes) × InRange c
  calibration_lem real address w w' bytes c sent read =
      let found : (read_register b address calibration_register 24 w).0 ≡ ok bytes =
        ap (λ r. r.0) sent in
      let (c', read', packed, range) =
        unpack-Reads bytes (read_register-length b address calibration_register 24 w bytes found)
          (read_register-IsByte real address calibration_register 24 w bytes found) in
      let same : c' ≡ c = cc in (subst (λ x. pack x ≡ bytes) same packed, subst InRange same range)

  module _ (real : HasBytes) (s : Session W) where
    -- From here on, with the driver as it was.
    load-InitEnd :
        (w : W) (t : Session W)
        → t.driver ≡ s.driver
        → read_register b s.driver.address chip_id_register 1 s.world
          ≡ (ok (expected_chip_id ∷ []), w)
        → InitEnd s (load_calibration b s.driver.address t)
    unfolding load_calibration
    load-InitEnd w t same known =
        on_world-cases b (InitEnd s) (read_register b s.driver.address calibration_register 24)
          (λ bytes. lift (unpack bytes) >>= calibrate b) t
          (λ bytes w' sent.
            lift-cases b (InitEnd s) (unpack bytes) (calibrate b) (record t { world = w' })
              (λ c read.
                let (packed, range) =
                  calibration_lem real s.driver.address t.world w' bytes c sent read in
                (
                  w,
                  t.world,
                  bytes,
                  c,
                  known,
                  sent,
                  packed,
                  range,
                  ap (λ (d : Bmp280). record d { calibration = some c }) same,
                ))
              (λ e _. same))
          (λ e w' _. same)

    abbrev Identified : Result (Unit {0}) × Session W → Type 0
    Identified (ok u, t) =
        (read_register b s.driver.address chip_id_register 1 s.world
          ≡ (ok (expected_chip_id ∷ []), t.world))
        × (t.driver ≡ s.driver)
    Identified (err e, t) = t.driver ≡ s.driver

    -- The answer that passes the test.
    chip_id_lem :
        (bytes : List ℕ) (u : Unit {0})
        → length bytes ≡ 1
        → (first_byte bytes >>>= check_chip_id) ≡ ok u
        → bytes ≡ (expected_chip_id ∷ [])
    chip_id_lem bytes u one passed =
        let (n, first, right) = >>>=-eq-ok (first_byte bytes) check_chip_id passed in
        let known : n ≡ expected_chip_id =
          (==_iff n expected_chip_id).0 (require-eq-ok (n == expected_chip_id) _ _ right) in
        first_byte_one bytes n one first ∙ ap (λ x. x ∷ []) known

    identify-Identified : Identified (identify b s.driver.address s)
    unfolding identify
    identify-Identified =
        on_world-cases b Identified (read_register b s.driver.address chip_id_register 1)
          (λ bytes. lift (first_byte bytes >>>= check_chip_id)) s
          (λ bytes w sent.
            let one =
              read_register-length b s.driver.address chip_id_register 1 s.world bytes
                (ap (λ r. r.0) sent) in
            elim (Result-cases (first_byte bytes >>>= check_chip_id)) [
              | inl (u, passed) ↦
                  subst (λ r. Identified (r, record s { world = w })) (sym passed)
                    (sent ∙ ap (λ x. (ok x, w)) (chip_id_lem bytes u one passed), refl)
              | inr (e, refused) ↦
                  subst (λ r. Identified (r, record s { world = w })) (sym refused) refl
            ])
          (λ e w _. refl)

  -- When `initialize` returns, the chip answered with the number of the BMP280, and the driver has the
  -- calibration whose layout the sensor sent, every word in its range, and is otherwise as before;
  -- when it raises, the driver is as it was. What comes from the bus is bytes.
  pub initialize-InitEnd : HasBytes → (s : Session W) → InitEnd s (initialize b s)
  unfolding initialize
  initialize-InitEnd real s =
      let address = s.driver.address in
      let wait = on_world b (wait_until_ready b address) in
      lift-cases b (InitEnd s)
        (require b.has_transfer type_error "BMP280 requires an I2C transport")
        (λ _. identify b address >> (wait >> load_calibration b address)) s
        (λ _ _.
          >>=-through (Identified real s) (InitEnd s) (identify b address)
            (λ _. wait >> load_calibration b address) s (identify-Identified real s)
            (λ _ t known.
              on_world-cases b (InitEnd s) (wait_until_ready b address)
                (λ _. load_calibration b address) t
                (λ _ w' _. load-InitEnd real s t.world (record t { world = w' }) known.1 known.0)
                (λ e w' _. known.1))
            (λ e t kept. kept))
        (λ e _. refl)
