-- ===== src/Commands/Shell.antt =====
-- What src/commands.py and src/service.py use of the machine, and what they print and run.
use sensorctl.Prelude.{ℕ, String, Bool, List, [], ◌∷◌, ◌++◌}
use sensorctl.Prelude.Int.{ℤ}
use sensorctl.Prelude.Dict.{Dict}
use sensorctl.Prelude.Exec.{Exec, pure}
use sensorctl.Config.Load.{AppConfig, Source}
use sensorctl.Config.Paths.{FilePath}
use sensorctl.Hardware.Registry.{Factories, PreparedDrivers}

-- What `json.loads` makes of a text. A number is its text.
mutual
  pub data Json : Type 0 where
    null : Json
    boolean : Bool → Json
    number : String → Json
    text : String → Json
    sequence : Elements → Json
    object : Members → Json

  pub data Elements : Type 0 where
    nil : Elements
    cons : Json → Elements → Elements

  pub data Members : Type 0 where
    end : Members
    member : String → Json → Members → Members

-- The `dict` that an object is.
unfoldable pub members : Members → Dict Json
members end = []
members (member k v rest) = (k, v) ∷ members rest

-- The machine: who runs the program, its processes, its files and the loop of the collector. `text_of`
-- is `str` of a value. A state of the drivers' hardware is a D.
pub record Machine (D W : Type 0) : Type 0 where
  pub unicode_digit : ℕ → Bool
  pub factories : Factories D
  pub read_toml : FilePath → W → Source
  pub is_root : W → Bool
  pub run : List String → Exec W ℤ
  pub has_journalctl : W → Bool
  pub exists : FilePath → W → Bool
  pub file_size : FilePath → Exec W ℕ
  pub disk_free : FilePath → Exec W ℕ
  pub load_json : FilePath → Exec W Json
  pub text_of : Json → String
  pub python_version : String
  pub collect : AppConfig → PreparedDrivers D → FilePath → Exec W (Unit {0})

-- The machine with what the program did to it: the processes it ran, and its two outputs.
pub record Shell (W : Type 0) : Type 0 where
  pub world : W
  pub processes : List (List String)
  pub output : List String
  pub error_output : List String

module _ {W : Type 0} where
  abbrev pub on_machine {ℓ} : {A : Type ℓ} → Exec W A → Exec (Shell W) A
  on_machine m s = let (r, w) = m s.world in (r, record s { world = w })

  -- `print`
  abbrev pub print : String → Exec (Shell W) (Unit {0})
  print line s = pure tt (record s { output = s.output ++ line ∷ [] })

  abbrev pub print_error : String → Shell W → Shell W
  print_error line s = record s { error_output = s.error_output ++ line ∷ [] }
