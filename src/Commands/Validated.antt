-- ===== src/Commands/Validated.antt =====
-- `_validate` of src/commands.py, by the outcome of `_prepare_config`.
use sensorctl.Prelude.{◌≡◌, ap, true, [], ◌∷◌, ◌++◌, ok, err, Exception}
use sensorctl.Prelude.Int.{pos}
use sensorctl.Prelude.Exec.{pure, ◌>>◌, then_do}
use sensorctl.Config.Paths.{FilePath}
use sensorctl.Config.Load.{AppConfig}
use sensorctl.Hardware.Registry.{PreparedDrivers}
use sensorctl.Commands.Shell.{Machine, Shell, print}
use sensorctl.Commands.Main.{prepare_config, valid_line, validate_config}

module _ {D W : Type 0} (m : Machine D W) where
  -- Who runs the program, and that a file is a valid configuration whose drivers can be made.
  abbrev pub IsRoot : Shell W → Type 0
  IsRoot s = m.is_root s.world ≡ true

  abbrev pub IsValid : FilePath → Shell W → Type 0
  IsValid path s =
      (found : AppConfig × PreparedDrivers D) × (prepare_config m path s.world ≡ ok found)

  abbrev pub shown : AppConfig → Shell W → Shell W
  shown config s = record s { output = s.output ++ valid_line m config ∷ [] }

  pub validate_ok :
      (path : FilePath) (s : Shell W) (found : AppConfig × PreparedDrivers D)
      → prepare_config m path s.world ≡ ok found
      → validate_config m path s ≡ (ok (pos 0), shown found.0 s)
  unfolding validate_config
  validate_ok path s found valid =
      ap
        (λ r.
          then_do (r, s)
            (λ (f : AppConfig × PreparedDrivers D). print (valid_line m f.0) >> pure (pos 0)))
        valid

  pub validate_err :
      (path : FilePath) (s : Shell W) (e : Exception)
      → prepare_config m path s.world ≡ err e
      → validate_config m path s ≡ (err e, s)
  unfolding validate_config
  validate_err path s e invalid =
      ap
        (λ r.
          then_do (r, s)
            (λ (f : AppConfig × PreparedDrivers D). print (valid_line m f.0) >> pure (pos 0)))
        invalid
