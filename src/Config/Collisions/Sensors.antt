-- ===== src/Config/Collisions/Sensors.antt =====
-- The loop over the sensors in `_validate_collisions` of src/config.py decides the conditions on
-- them: distinct ids, known buses, addresses exactly on I2C, and no shared address or exclusive bus.
use sensorctl.Prelude.{
  ℕ, ◌≡◌, refl, ap, subst, ◌∙◌, String, Bool, true, false, not, ◌&&◌, ◌||◌, Option, none, some,
  List, [], ◌∷◌, arith, str_eq, any, any-or, any-eq, any-false, all, apart, Result, ok, err,
  forbid-cases, or_raise-cases, >>=-cases, ◌>>=◌, ◌>>◌,
}
use sensorctl.Prelude.Dict.{Dict, lookup, insert, mem, has, has-insert, has_of_lookup, has_of_none}
use sensorctl.Config.Bus.{BusConfig, is_i2c, is_exclusive}
use sensorctl.Config.Sensor.{SensorConfig}
use sensorctl.Config.Collisions.{
  Seen, nothing_seen, address_taken, check_address, free_bus, check_exclusive, check_sensor,
  check_sensors,
}
use sensorctl.Config.Collisions.Topology.{
  on_type, takes, holds, same_address, sensor_clash, placed, Decides,
}

module _ (buses : Dict BusConfig) where
  -- What is remembered agrees with the sensors so far.
  pub record Tracks (seen : Seen) (earlier : List SensorConfig) : Type 0 where
    ids : (k : String) → mem k seen.ids ≡ any (λ t. str_eq t.id k) earlier
    addresses :
        (bus : String) (a : ℕ)
        → address_taken bus a seen.i2c_addresses ≡ any (takes buses bus a) earlier
    exclusive : (bus : String) → has bus seen.exclusive_buses ≡ any (holds buses bus) earlier

  abbrev Addresses : List (String × ℕ) → List SensorConfig → Type 0
  Addresses l earlier = (b : String) (a : ℕ) → address_taken b a l ≡ any (takes buses b a) earlier

  abbrev Holders : Dict String → List SensorConfig → Type 0
  Holders d earlier = (b : String) → has b d ≡ any (holds buses b) earlier

  module _ (s : SensorConfig) (earlier : List SensorConfig) (bus : BusConfig)
      (known : lookup s.bus buses ≡ some bus) where
    -- The address is given exactly on I2C, and is free.
    abbrev AddressJudged : Result (List (String × ℕ)) → Type 0
    AddressJudged (ok l) =
        (placed buses s ≡ true)
        × (any (same_address buses s) earlier ≡ false)
        × Addresses l (s ∷ earlier)
    AddressJudged (err e) = (placed buses s && not (any (same_address buses s) earlier)) ≡ false

    address_go :
        (l : List (String × ℕ)) (on_i2c : Bool) (address : Option ℕ)
        → Addresses l earlier
        → is_i2c bus.bus_type ≡ on_i2c
        → s.address ≡ address
        → AddressJudged (check_address s on_i2c address l)
    unfolding check_address address_taken
    address_go l true none h e f = ground (arith, known, e, f)
    address_go l false none h e f = (
      ground (arith, known, e, f),
      any-eq (same_address buses s) (λ _. false) earlier (λ t. ground (arith, known, e, f))
          ∙ any-false earlier,
      λ b a. ground (arith, known, e, f, h b a),
    )
    address_go l false (some a) h e f = ground (arith, known, e, f)
    address_go l true (some a) h e f =
        forbid-cases AddressJudged _ _ (address_taken s.bus a l) (ok ((s.bus, a) ∷ l))
          (λ taken. ground (arith, clashes, taken, h s.bus a))
          (λ free. (
            ground (arith, known, e, f),
            ground (arith, clashes, free, h s.bus a),
            λ b c. ground (arith, known, e, f, h b c),
          ))
      where
        clashes : any (same_address buses s) earlier ≡ any (takes buses s.bus a) earlier
        clashes = any-eq _ _ earlier (λ t. ground (arith, known, e, f))

    abbrev on_exclusive : SensorConfig → Bool
    on_exclusive t = on_type is_exclusive buses s.bus && holds buses s.bus t

    -- An exclusive bus is free.
    abbrev BusJudged : Result (Dict String) → Type 0
    BusJudged (ok d) = (any on_exclusive earlier ≡ false) × Holders d (s ∷ earlier)
    BusJudged (err e) = any on_exclusive earlier ≡ true

    exclusive_go :
        (d : Dict String) (exclusive : Bool)
        → Holders d earlier
        → is_exclusive bus.bus_type ≡ exclusive
        → BusJudged (check_exclusive s exclusive d)
    unfolding check_exclusive
    exclusive_go d false h e = (
      any-eq on_exclusive (λ _. false) earlier (λ t. ground (arith, known, e)) ∙ any-false earlier,
      λ b. ground (arith, known, e, h b),
    )
    exclusive_go d true h e = owner_go (lookup s.bus d) refl
      where
        clashes : any on_exclusive earlier ≡ any (holds buses s.bus) earlier
        clashes = any-eq _ _ earlier (λ t. ground (arith, known, e))

        owner_go :
            (owner : Option String)
            → lookup s.bus d ≡ owner
            → BusJudged (free_bus owner s >> ok (insert s.bus s.id d))
        owner_go none free = (
          ground (arith, clashes, has_of_none s.bus d free, h s.bus),
          λ b. ground (arith, known, e, h b, has-insert s.bus b s.id d),
        )
        owner_go (some other) taken =
            ground (arith, clashes, has_of_lookup s.bus other d taken, h s.bus)

  -- The clash test, part by part.
  clash-parts :
      (s : SensorConfig) (earlier : List SensorConfig)
      → any (sensor_clash buses s) earlier ≡ (
          any (λ t. str_eq t.id s.id) earlier
          || (any (same_address buses s) earlier
              || any (λ t. on_type is_exclusive buses s.bus && holds buses s.bus t) earlier))
  clash-parts s earlier =
      any-or (λ t. str_eq t.id s.id)
        (λ t. same_address buses s t || (on_type is_exclusive buses s.bus && holds buses s.bus t))
        earlier
      ∙ ap (λ b. any (λ t. str_eq t.id s.id) earlier || b)
          (any-or (same_address buses s)
            (λ t. on_type is_exclusive buses s.bus && holds buses s.bus t) earlier)

  abbrev fits : SensorConfig → List SensorConfig → Bool
  fits s earlier = placed buses s && not (any (sensor_clash buses s) earlier)

  -- A round either remembers one more sensor, or fails on one that does not fit.
  abbrev Judged : SensorConfig → List SensorConfig → Result Seen → Type 0
  Judged s earlier (ok seen) =
      (placed buses s ≡ true)
      × (any (sensor_clash buses s) earlier ≡ false)
      × Tracks seen (s ∷ earlier)
  Judged s earlier (err e) = fits s earlier ≡ false

  address_fails :
      (s : SensorConfig) (earlier : List SensorConfig)
      → (placed buses s && not (any (same_address buses s) earlier)) ≡ false
      → fits s earlier ≡ false
  address_fails s earlier h = ground (arith, clash-parts s earlier, h)

  bus_fails :
      (s : SensorConfig) (earlier : List SensorConfig)
      → any (λ t. on_type is_exclusive buses s.bus && holds buses s.bus t) earlier ≡ true
      → fits s earlier ≡ false
  bus_fails s earlier h = ground (arith, clash-parts s earlier, h)

  remembered :
      (s : SensorConfig) (seen : Seen) (earlier : List SensorConfig) (bus : BusConfig)
      (known : lookup s.bus buses ≡ some bus)
      → Tracks seen earlier
      → (l : List (String × ℕ)) (d : Dict String) → mem s.id seen.ids ≡ false
      → AddressJudged s earlier bus known (ok l)
      → BusJudged s earlier bus known (ok d)
      → Judged s earlier
          (ok (record { ids = s.id ∷ seen.ids; i2c_addresses = l; exclusive_buses = d }))
  unfolding mem
  remembered s seen earlier bus known h l d fresh (fit, apart_address, addresses)
        (apart_bus, holders) =
      (
        fit,
        ground (arith, clash-parts s earlier, apart_address, apart_bus, fresh, h.ids s.id),
        record { ids = λ k. ground (arith, h.ids k); addresses = addresses; exclusive = holders },
      )

  check_sensor_lem :
      (s : SensorConfig) (seen : Seen) (earlier : List SensorConfig)
      → Tracks seen earlier
      → Judged s earlier (check_sensor buses s seen)
  unfolding check_sensor
  check_sensor_lem s seen earlier h =
      forbid-cases (Judged s earlier) _ _ (mem s.id seen.ids) _
        (λ taken. ground (arith, clash-parts s earlier, h.ids s.id, taken))
        λ fresh.
          or_raise-cases (Judged s earlier) _ _ (lookup s.bus buses) _
            (λ missing. ground (arith, missing))
            λ bus known.
              let judged =
                address_go s earlier bus known seen.i2c_addresses (is_i2c bus.bus_type) s.address
                  h.addresses refl refl in
              let held =
                exclusive_go s earlier bus known seen.exclusive_buses (is_exclusive bus.bus_type)
                  h.exclusive refl in
              >>=-cases (Judged s earlier) (check_address s (is_i2c bus.bus_type) s.address _) _
                (λ e refused.
                  address_fails s earlier
                    (subst (AddressJudged s earlier bus known) refused judged))
                λ l addressed.
                  >>=-cases (Judged s earlier) (check_exclusive s (is_exclusive bus.bus_type) _) _
                    (λ e refused.
                      bus_fails s earlier (subst (BusJudged s earlier bus known) refused held))
                    λ d exclusive.
                      remembered s seen earlier bus known h l d fresh
                        (subst (AddressJudged s earlier bus known) addressed judged)
                        (subst (BusJudged s earlier bus known) exclusive held)

  abbrev pub fit_all : List SensorConfig → List SensorConfig → Bool
  fit_all sensors earlier = all (placed buses) sensors && apart (sensor_clash buses) earlier sensors

  go_on :
      (s : SensorConfig) (sensors earlier : List SensorConfig) (r : Result (Unit {0}))
      → placed buses s ≡ true
      → any (sensor_clash buses s) earlier ≡ false
      → Decides (fit_all sensors (s ∷ earlier)) r
      → Decides (fit_all (s ∷ sensors) earlier) r
  go_on s sensors earlier (ok u) fit free h = ground (arith, fit, free, h)
  go_on s sensors earlier (err e) fit free h = ground (arith, fit, free, h)

  stop :
      (s : SensorConfig) (sensors earlier : List SensorConfig)
      → fits s earlier ≡ false
      → fit_all (s ∷ sensors) earlier ≡ false
  stop s sensors earlier h = ground (arith, h)

  check_sensors_go :
      (s : SensorConfig) (sensors earlier : List SensorConfig) (r : Result Seen)
      → Judged s earlier r
      → ((seen : Seen)
          → Tracks seen (s ∷ earlier)
          → Decides (fit_all sensors (s ∷ earlier)) (check_sensors buses sensors seen))
      → Decides (fit_all (s ∷ sensors) earlier) (r >>= check_sensors buses sensors)
  check_sensors_go s sensors earlier (ok seen) (fit, free, tracked) later =
      go_on s sensors earlier (check_sensors buses sensors seen) fit free (later seen tracked)
  check_sensors_go s sensors earlier (err e) h later = stop s sensors earlier h

  pub check_sensors_lem :
      (sensors earlier : List SensorConfig) (seen : Seen)
      → Tracks seen earlier
      → Decides (fit_all sensors earlier) (check_sensors buses sensors seen)
  unfolding check_sensors
  check_sensors_lem [] earlier seen h = refl
  check_sensors_lem (s ∷ sensors) earlier seen h =
      check_sensors_go s sensors earlier _ (check_sensor_lem s seen earlier h)
        (λ more tracked. check_sensors_lem sensors (s ∷ earlier) more tracked)

  pub start-Tracks : Tracks nothing_seen []
  unfolding mem address_taken has lookup
  start-Tracks = record { ids = λ k. refl; addresses = λ b a. refl; exclusive = λ b. refl }
