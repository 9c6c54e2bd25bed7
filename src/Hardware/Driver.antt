-- ===== src/Hardware/Driver.antt =====
-- src/hw/drivers/base.py and src/hw/transports/base.py: what the program asks of a driver and of a
-- transport, over the state of the hardware. A driver is taken with the transport that it is called
-- with.
use sensorctl.Prelude.{String, List}
use sensorctl.Prelude.Dict.{Dict}
use sensorctl.Prelude.Exec.{Exec}
use sensorctl.Model.{Float, FieldDefinition}

pub record SensorDriver (W : Type 0) : Type 0 where
  pub fields : List FieldDefinition
  pub supported_bus_types : List String
  pub initialize : Exec W (Unit {0})
  pub read : Exec W (Dict Float)
  pub close : Exec W (Unit {0})

pub record Transport (W : Type 0) : Type 0 where
  pub open_device : Exec W (Unit {0})
  pub close_device : Exec W (Unit {0})
