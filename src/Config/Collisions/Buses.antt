-- ===== src/Config/Collisions/Buses.antt =====
-- The loop over the buses in `_validate_collisions` of src/config.py decides that no two share a
-- device.
use sensorctl.Prelude.{
  ◌≡◌, refl, ◌∙◌, String, true, false, not, ◌&&◌, Option, none, some, List, [], ◌∷◌, arith, ◌<>◌,
  any, apart, any-eq, any-false, subst, sym, inl, inr, Option-cases, Result, ok, err, ◌>>=◌, ◌>>◌,
}
use sensorctl.Config.Paths.{FilePath}
use sensorctl.Config.Bus.{BusType, BusConfig, bus_type_text}
use sensorctl.Config.Collisions.{
  Devices, device_owner, free_device, shared_device, check_bus, check_buses,
}
use sensorctl.Config.Collisions.Topology.{owns, bus_clash, is_some, Decides}

-- The remembered devices are those that the buses so far own.
abbrev pub Tracks : Devices → List BusConfig → Type 0
Tracks devices earlier =
    (t : BusType) (path : FilePath)
    → is_some (device_owner t path devices) ≡ any (owns t path) earlier

-- A round either goes on with the devices of one more bus, or fails on a clash.
abbrev Judged : List BusConfig → BusConfig → Result Devices → Type 0
Judged earlier bus (ok devices) =
    (any (bus_clash bus) earlier ≡ false) × Tracks devices (bus ∷ earlier)
Judged earlier bus (err e) = any (bus_clash bus) earlier ≡ true

module _ (bus : BusConfig) (devices : Devices) (earlier : List BusConfig)
    (h : Tracks devices earlier) where
  -- A bus that the loop passes over.
  passed : shared_device bus ≡ none → Judged earlier bus (check_bus bus (shared_device bus) devices)
  unfolding check_bus device_owner
  passed e =
      subst (λ d. Judged earlier bus (check_bus bus d devices)) (sym e)
        (
          any-eq (bus_clash bus) (λ _. false) earlier (λ y. ground (arith, e)) ∙ any-false earlier,
          λ t path. ground (arith, e, h t path),
        )

  claimed :
      (path : FilePath)
      → shared_device bus ≡ some path
      → Judged earlier bus (check_bus bus (shared_device bus) devices)
  unfolding check_bus device_owner
  claimed path e =
      subst (λ d. Judged earlier bus (check_bus bus d devices)) (sym e)
        (go (device_owner bus.bus_type path devices) refl)
    where
      message : String
      message =
          " and " <> (bus.id <> (" share " <> (bus_type_text bus.bus_type <> (" device " <> path))))

      clashes : any (bus_clash bus) earlier ≡ any (owns bus.bus_type path) earlier
      clashes = any-eq _ _ earlier (λ y. ground (arith, e))

      go :
          (owner : Option String)
          → device_owner bus.bus_type path devices ≡ owner
          → Judged earlier bus (check_bus bus (some path) devices)
      go none free =
          subst
            (λ o.
              Judged earlier bus
                (free_device o message >> ok (((bus.bus_type, path), bus.id) ∷ devices)))
            (sym free)
            (ground (arith, clashes, free, h bus.bus_type path), λ t q. ground (arith, e, h t q))
      go (some other) taken =
          subst
            (λ o.
              Judged earlier bus
                (free_device o message >> ok (((bus.bus_type, path), bus.id) ∷ devices)))
            (sym taken) (ground (arith, clashes, taken, h bus.bus_type path))

check_bus_lem :
    (bus : BusConfig) (devices : Devices) (earlier : List BusConfig)
    → Tracks devices earlier
    → Judged earlier bus (check_bus bus (shared_device bus) devices)
check_bus_lem bus devices earlier h = elim (Option-cases (shared_device bus)) [
  | inl e ↦ passed bus devices earlier h e
  | inr (path, e) ↦ claimed bus devices earlier h path e
]

check_buses_go :
    (bus : BusConfig) (buses earlier : List BusConfig) (r : Result Devices)
    → Judged earlier bus r
    → ((devices : Devices)
        → Tracks devices (bus ∷ earlier)
        → Decides (apart bus_clash (bus ∷ earlier) buses) (check_buses buses devices))
    → Decides (apart bus_clash earlier (bus ∷ buses)) (r >>= check_buses buses)
check_buses_go bus buses earlier (ok devices) (free, tracked) later =
    subst
      (λ b. Decides (not b && apart bus_clash (bus ∷ earlier) buses) (check_buses buses devices))
      (sym free) (later devices tracked)
check_buses_go bus buses earlier (err e) clash later = ground (arith, clash)

pub check_buses_lem :
    (buses earlier : List BusConfig) (devices : Devices)
    → Tracks devices earlier
    → Decides (apart bus_clash earlier buses) (check_buses buses devices)
unfolding check_buses
check_buses_lem [] earlier devices h = refl
check_buses_lem (bus ∷ buses) earlier devices h =
    check_buses_go bus buses earlier _ (check_bus_lem bus devices earlier h)
      (λ more tracked. check_buses_lem buses (bus ∷ earlier) more tracked)

pub start-Tracks : Tracks [] []
unfolding device_owner
start-Tracks t path = refl
