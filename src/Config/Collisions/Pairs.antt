-- ===== src/Config/Collisions/Pairs.antt =====
-- What the collision checks of src/config.py say of any two sensors.
use mathlib.Core.List.{append_assoc}
use sensorctl.Prelude.{
  ◌≡◌, ◌≢◌, ap, ◌∙◌, String, Bool, true, false, some, List, [], ◌∷◌, ◌++◌, arith, eq_iff, any, all,
  apart, ◌⊎◌, inl, inr, Bool-cases, Option-cases,
}
use sensorctl.Prelude.Dict.{Dict, lookup}
use sensorctl.Config.Bus.{BusConfig, is_i2c, is_exclusive}
use sensorctl.Config.Sensor.{SensorConfig}
use sensorctl.Config.Collisions.Topology.{is_topology, sensor_clash, placed}

module _ {ℓ} {A : Type ℓ} (clash : A → A → Bool) where
  any_middle :
      (z x : A) (front back : List A)
      → any (clash z) (front ++ x ∷ back) ≡ false
      → clash z x ≡ false
  any_middle z x [] back h = ground (arith, h)
  any_middle z x (y ∷ front) back h = any_middle z x front back (ground (arith, h))

  apart_later :
      (x z : A) (front back between rest : List A)
      → apart clash (front ++ x ∷ back) (between ++ z ∷ rest) ≡ true
      → clash z x ≡ false
  apart_later x z front back [] rest h = any_middle z x front back (ground (arith, h))
  apart_later x z front back (y ∷ between) rest h =
      apart_later x z (y ∷ front) back between rest (ground (arith, h))

  -- In a list without clashes no element clashes with one before it.
  pub apart-pair :
      (x z : A) (earlier before between rest : List A)
      → apart clash earlier (before ++ x ∷ (between ++ z ∷ rest)) ≡ true
      → clash z x ≡ false
  apart-pair x z earlier [] between rest h =
      apart_later x z [] earlier between rest (ground (arith, h))
  apart-pair x z earlier (y ∷ before) between rest h =
      apart-pair x z (y ∷ earlier) before between rest (ground (arith, h))

module _ {ℓ} {A : Type ℓ} (p : A → Bool) where
  -- What all elements satisfy, the one in the middle satisfies.
  all_middle : (front back : List A) (x : A) → all p (front ++ x ∷ back) ≡ true → p x ≡ true
  all_middle [] back x h = ground (arith, h)
  all_middle (y ∷ front) back x h = all_middle front back x (ground (arith, h))

addresses_differ :
    (buses : Dict BusConfig) (s t : SensorConfig) (bus : BusConfig)
    → sensor_clash buses t s ≡ false
    → placed buses t ≡ true
    → s.bus ≡ t.bus
    → lookup t.bus buses ≡ some bus
    → is_i2c bus.bus_type ≡ true
    → s.address ≢ t.address
addresses_differ buses s t bus free fit same known on_i2c e = elim (Option-cases t.address) [
  | inl missing ↦ absurd (ground (arith, fit, known, on_i2c, missing))
  | inr (a, given) ↦ absurd (
      ground (
        arith,
        free,
        known,
        on_i2c,
        given,
        e ∙ given,
        ap (λ (b : String). lookup b buses) same ∙ known,
        eq_iff s.bus t.bus,
        same,
      ))
]

-- Two sensors of a valid configuration that are on one bus, whichever comes first: their ids differ,
-- the bus is neither SPI nor UART, and if it is I2C their addresses differ.
pub is_topology-pair :
    (buses : Dict BusConfig) (before between rest : List SensorConfig) (s t : SensorConfig)
    (bus : BusConfig)
    → is_topology buses (before ++ s ∷ (between ++ t ∷ rest)) ≡ true
    → s.bus ≡ t.bus
    → lookup t.bus buses ≡ some bus
    → (s.id ≢ t.id)
      × (is_exclusive bus.bus_type ≡ false)
      × ((is_i2c bus.bus_type ≡ false) ⊎ (s.address ≢ t.address))
unfolding is_topology
is_topology-pair buses before between rest s t bus h same known = (
  λ e. absurd (ground (arith, free, eq_iff s.id t.id, e)),
  ground (
    arith,
    free,
    known,
    ap (λ (b : String). lookup b buses) same ∙ known,
    eq_iff s.bus t.bus,
    same,
  ),
  elim (Bool-cases (is_i2c bus.bus_type)) [
    | inl on_i2c ↦ inr (addresses_differ buses s t bus free fit same known on_i2c)
    | inr other ↦ inl other
  ],
)
  where
    free : sensor_clash buses t s ≡ false
    free = apart-pair (sensor_clash buses) s t [] before between rest (ground (arith, h))

    fit : placed buses t ≡ true
    fit =
        all_middle (placed buses) (before ++ s ∷ between) rest t
          (rw append_assoc (ground (arith, h)))
