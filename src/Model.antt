-- ===== src/Model.antt =====
-- src/model.py: the data that the threads hand to one another, and the floats that they carry.
use sensorctl.Prelude.{ℕ, String, Bool, true, false}
use sensorctl.Prelude.Int.{ℤ}
use sensorctl.Prelude.Dict.{Dict}

-- A float is a whole number over a power of two, an infinity with its sign, or not a number.
pub data Float : Type 0 where
  finite : ℤ → ℕ → Float
  infinite : Bool → Float
  nan : Float

-- `math.isfinite`
abbrev pub is_finite : Float → Bool
is_finite (finite m e) = true
is_finite _ = false

pub record FieldDefinition : Type 0 where
  pub name : String
  pub unit : String

pub record Sample : Type 0 where
  pub sensor_id : String
  pub time : String
  pub monotonic_ms : ℕ
  pub boot_id : String
  pub values : Dict Float

pub record StoredSensor : Type 0 where
  pub instance_id : ℕ
  pub fields : Dict ℕ
