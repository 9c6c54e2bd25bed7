-- ===== src/Config/Load/Topology.antt =====
-- The result of `_validate_collisions` of src/config.py against the description of a topology.
use sensorctl.Prelude.{◌≡◌, sym, Bool, true, false, ◌&&◌, [], arith, Result, ok, err, ◌>>◌}
use sensorctl.Prelude.Dict.{values}
use sensorctl.Config.Collisions.{check_buses, check_sensors, nothing_seen}
use sensorctl.Config.Collisions.Topology.{is_topology, Decides}
use sensorctl.Config.Collisions.Buses.{check_buses_lem, start-Tracks as bus_start}
use sensorctl.Config.Collisions.Sensors.{check_sensors_lem, start-Tracks as sensor_start}
use sensorctl.Config.Load.{AppConfig, validate_collisions}

abbrev pub is_ok {ℓ} : {A : Type ℓ} → Result A → Bool
is_ok (ok v) = true
is_ok (err e) = false

is_ok_of_Decides : (b : Bool) (r : Result (Unit {0})) → Decides b r → is_ok r ≡ b
is_ok_of_Decides b (ok u) h = sym h
is_ok_of_Decides b (err e) h = sym h

-- Two checks in a row.
decided :
    (b c : Bool) (r q : Result (Unit {0}))
    → (is_ok r ≡ b)
    → (is_ok q ≡ c)
    → is_ok (r >> q) ≡ (b && c)
decided b c (ok u) (ok v) h k = ground (arith, h, k)
decided b c (ok u) (err e) h k = ground (arith, h, k)
decided b c (err e) q h k = ground (arith, h)

-- The collision checks accept exactly the configurations in which no two SPI or UART buses share a
-- device, every sensor is on a known bus and has an address exactly if that bus is I2C, and no two
-- sensors share their id, their address on an I2C bus, or an SPI or UART bus.
pub validate_collisions-is_topology :
    (config : AppConfig)
    → is_ok (validate_collisions config) ≡ is_topology config.buses config.sensors
unfolding validate_collisions is_topology
validate_collisions-is_topology config =
    decided _ _ (check_buses (values config.buses) [])
      (check_sensors config.buses config.sensors nothing_seen)
      (is_ok_of_Decides _ _ (check_buses_lem (values config.buses) [] [] bus_start))
      (is_ok_of_Decides _ _
        (check_sensors_lem config.buses config.sensors [] nothing_seen (sensor_start config.buses)))
