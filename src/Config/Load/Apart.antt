-- ===== src/Config/Load/Apart.antt =====
-- What two sensors of one loaded configuration can share: the consequences of the collision checks of
-- src/config.py for whoever uses the configuration.
use sensorctl.Prelude.{ℕ, ◌≡◌, ◌≢◌, ◌⊎◌, ◌∙◌, sym, ap, false, Bool, some, List, ◌∷◌, ◌++◌, ok}
use sensorctl.Prelude.Dict.{lookup}
use sensorctl.Config.Paths.{FilePath}
use sensorctl.Config.Bus.{BusConfig, is_exclusive, is_i2c}
use sensorctl.Config.Sensor.{SensorConfig}
use sensorctl.Config.Collisions.Topology.{is_topology}
use sensorctl.Config.Collisions.Pairs.{is_topology-pair}
use sensorctl.Config.Load.{AppConfig, Source, load_config}
use sensorctl.Config.Load.Checked.{load_config-IsConfig}

-- Of two sensors of a loaded configuration that are on one bus, whichever comes first: their ids
-- differ, the bus is neither SPI nor UART, and if it is I2C their addresses differ.
pub load_config-apart :
    (u : ℕ → Bool) (path : FilePath) (source : Source) (config : AppConfig)
    (before between rest : List SensorConfig) (s t : SensorConfig) (bus : BusConfig)
    → load_config u path source ≡ ok config
    → config.sensors ≡ before ++ s ∷ (between ++ t ∷ rest)
    → s.bus ≡ t.bus
    → lookup t.bus config.buses ≡ some bus
    → (s.id ≢ t.id)
      × (is_exclusive bus.bus_type ≡ false)
      × ((is_i2c bus.bus_type ≡ false) ⊎ (s.address ≢ t.address))
load_config-apart u path source config before between rest s t bus loads listed same known =
    let valid = load_config-IsConfig u path source config loads in
    is_topology-pair config.buses before between rest s t bus
      (sym (ap (is_topology config.buses) listed) ∙ valid.topology) same known
