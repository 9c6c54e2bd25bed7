-- ===== src/Config/Fields.antt =====
-- The helpers of src/config.py that read one field of a table: `_table`, `_reject_unknown`,
-- `_integer` and `_string`.
use sensorctl.Prelude.{
  ℕ, String, ◌&&◌, Option, none, some, List, [], ◌∷◌, leb, if◌then◌else◌, is_blank, least, show,
  ◌<>◌, Result, ok, raise, config_error,
}
use sensorctl.Prelude.Int.{pos, negsuc}
use sensorctl.Prelude.Dict.{Dict, lookup, keys, mem}
use sensorctl.Config.Toml.{Value, int, str, table, entries}

-- `_table`
unfoldable pub as_table : Value → String → Result (Dict Value)
as_table (table t) name = ok (entries t)
as_table _ name = raise config_error (name <> " must be a table")

-- `set(values) - allowed`
unfoldable pub unknown_keys : List String → List String → List String
unknown_keys [] allowed = []
unknown_keys (k ∷ ks) allowed =
    let rest = unknown_keys ks allowed in if mem k allowed then rest else k ∷ rest

abbrev pub raise_unknown : Option String → String → Result (Unit {0})
raise_unknown none name = ok tt
raise_unknown (some k) name = raise config_error ("unknown " <> (name <> (" key: " <> k)))

-- `_reject_unknown`
unfoldable pub reject_unknown : Dict Value → List String → String → Result (Unit {0})
reject_unknown values allowed name = raise_unknown (least (unknown_keys (keys values) allowed)) name

abbrev pub get_or_default : Option Value → Value → Value
get_or_default none default = default
get_or_default (some v) default = v

unfoldable pub out_of_range : String → ℕ → ℕ → Result ℕ
out_of_range name minimum maximum =
    raise config_error
      (name <> (" must be between " <> (show minimum <> (" and " <> show maximum))))

-- The tests of `_integer`: a Boolean is no integer, and no bound is negative.
unfoldable pub integer_value : String → ℕ → ℕ → Value → Result ℕ
unfolding out_of_range
integer_value name minimum maximum (int (pos n)) =
    if leb minimum n && leb n maximum then ok n else out_of_range name minimum maximum
integer_value name minimum maximum (int (negsuc n)) = out_of_range name minimum maximum
integer_value name minimum maximum _ = raise config_error (name <> " must be an integer")

-- `_integer`
unfoldable pub integer : Dict Value → String → ℕ → ℕ → ℕ → Result ℕ
unfolding integer_value
integer values name default minimum maximum =
    integer_value name minimum maximum (get_or_default (lookup name values) (int (pos default)))

unfoldable pub string_value : String → Option Value → Result String
string_value name (some (str s)) =
    if is_blank s then raise config_error (name <> " must be a non-empty string") else ok s
string_value name _ = raise config_error (name <> " must be a non-empty string")

-- `_string`
unfoldable pub string : Dict Value → String → Result String
unfolding string_value
string values name = string_value name (lookup name values)
