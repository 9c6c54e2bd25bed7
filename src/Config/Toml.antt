-- ===== src/Config/Toml.antt =====
-- What `tomllib` hands to src/config.py: the values of a TOML document.
use sensorctl.Prelude.{String, Bool, List, [], ◌∷◌}
use sensorctl.Prelude.Int.{ℤ}
use sensorctl.Prelude.Dict.{Dict}
use sensorctl.Model.{Float}

mutual
  pub data Value : Type 0 where
    bool : Bool → Value
    int : ℤ → Value
    float : Float → Value
    str : String → Value
    -- A date or a time, by its text.
    moment : String → Value
    array : Items → Value
    table : Table → Value

  pub data Items : Type 0 where
    nil : Items
    cons : Value → Items → Items

  pub data Table : Type 0 where
    end : Table
    entry : String → Value → Table → Table

-- The `dict` that a table is.
unfoldable pub entries : Table → Dict Value
entries end = []
entries (entry k v t) = (k, v) ∷ entries t

-- The `list` that an array is.
unfoldable pub elements : Items → List Value
elements nil = []
elements (cons v vs) = v ∷ elements vs
