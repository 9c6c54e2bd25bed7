-- ===== src/Commands/Main.antt =====
-- The commands of src/commands.py, and `main`.
use sensorctl.Prelude.{
  String, Bool, true, false, List, [], ◌∷◌, length, ◌==◌, if◌then◌else◌, show, ◌<>◌, Kind, Result,
  ok, err, config_error, runtime_error, os_error, permission_error, timeout_error, json_error,
}
use sensorctl.Prelude.{◌>>=◌ as ◌>>>=◌}
use sensorctl.Prelude.Int.{ℤ, pos, negsuc}
use sensorctl.Prelude.Dict.{values}
use sensorctl.Prelude.Exec.{Exec, pure, lift, ◌>>=◌, ◌>>◌}
use sensorctl.Config.Paths.{FilePath, path_parent}
use sensorctl.Config.Bus.{BusConfig, is_mock, require_device}
use sensorctl.Config.Load.{AppConfig, load_config}
use sensorctl.Hardware.Registry.{PreparedDrivers, prepare}
use sensorctl.Commands.Shell.{Json, Machine, Shell, on_machine, print, print_error}
use sensorctl.Commands.Service.{
  enable_service, disable_service, start_service, stop_service, restart_service, show_status,
  show_journal,
}
use sensorctl.Commands.Status.{print_payload}

-- The parsed arguments: a path of the configuration, and for two commands that of the status file.
pub data Command : Type 0 where
  collect : FilePath → FilePath → Command
  validate enable start restart : FilePath → Command
  status : FilePath → FilePath → Command
  diagnose : FilePath → Command
  disable stop : Command

-- `(OSError, json.JSONDecodeError)`
abbrev pub is_unavailable : Kind → Bool
is_unavailable os_error = true
is_unavailable permission_error = true
is_unavailable timeout_error = true
is_unavailable json_error = true
is_unavailable _ = false

-- `(ConfigError, OSError, RuntimeError)`
abbrev pub is_caught : Kind → Bool
is_caught config_error = true
is_caught os_error = true
is_caught permission_error = true
is_caught timeout_error = true
is_caught runtime_error = true
is_caught _ = false

abbrev pub is_zero : ℤ → Bool
is_zero (pos n) = n == 0
is_zero (negsuc n) = false

module _ {D W : Type 0} (m : Machine D W) where
  open m use {unicode_digit, factories, read_toml, exists, python_version}

  unfoldable pub prepare_config : FilePath → W → Result (AppConfig × PreparedDrivers D)
  prepare_config path w = load_config unicode_digit path (read_toml path w) >>>= λ config.
      prepare D factories config >>>= λ prepared. ok (config, prepared)

  abbrev pub prepared : FilePath → Exec (Shell W) (AppConfig × PreparedDrivers D)
  prepared path s = (prepare_config path s.world, s)

  abbrev pub valid_line : AppConfig → String
  valid_line config =
      "configuration valid: "
      <> (show (length config.sensors)
          <> (" sensors, " <> (show (length config.buses) <> " buses")))

  unfoldable pub validate_config : FilePath → Exec (Shell W) ℤ
  validate_config path = do found ← prepared path; print (valid_line found.0); pure (pos 0)

  -- The size of the database and the space that is left, if the database exists.
  unfoldable pub print_database : FilePath → Exec (Shell W) (Unit {0})
  print_database path s =
      if exists path s.world
      then (do
        free ← on_machine (m.disk_free (path_parent path))
        size ← on_machine (m.file_size path)
        print ("database_size_bytes: " <> show size)
        print ("disk_free_bytes: " <> show free))
          s
      else (do print "database_size_bytes: 0"; print "disk_free_bytes: unknown") s

  abbrev pub after_status : Result Json → Exec (Shell W) (Unit {0})
  after_status (ok payload) = print_payload m payload
  after_status (err e) =
      if is_unavailable e.kind then print "runtime: unavailable" else lift (err e)

  abbrev pub read_status : FilePath → Exec (Shell W) (Unit {0})
  read_status path s = let (r, t) = on_machine (m.load_json path) s in after_status r t

  -- `_status`
  unfoldable pub report_status : FilePath → FilePath → Exec (Shell W) ℤ
  report_status config_path status_path = do
    found ← prepared config_path
    print ("database: " <> found.0.database.path)
    print_database found.0.database.path
    read_status status_path
    pure (pos 0)

  unfoldable pub check_device : BusConfig → FilePath → Exec (Shell W) Bool
  check_device bus device s =
      if exists device s.world
      then (print ("bus " <> (bus.id <> (": ok (" <> (device <> ")")))) >> pure false) s
      else (print ("bus " <> (bus.id <> (": missing (" <> (device <> ")")))) >> pure true) s

  unfoldable pub diagnose_bus : BusConfig → Exec (Shell W) Bool
  diagnose_bus bus =
      if is_mock bus.bus_type
      then print ("bus " <> (bus.id <> ": mock")) >> pure false
      else lift (require_device bus) >>= check_device bus

  -- The loop over the buses: whether the device of one of them is missing.
  unfoldable pub diagnose_buses : List BusConfig → Bool → Exec (Shell W) Bool
  diagnose_buses [] failed = pure failed
  diagnose_buses (bus ∷ buses) failed =
      let clean = diagnose_buses buses failed in
      let marked = diagnose_buses buses true in
      diagnose_bus bus >>= λ missing. if missing then marked else clean

  abbrev pub disk_target : FilePath → W → FilePath
  disk_target path w =
      let parent = path_parent path in if exists parent w then parent else path_parent parent

  abbrev pub print_free : FilePath → Exec (Shell W) (Unit {0})
  print_free path s =
      (do
        free ← on_machine (m.disk_free (disk_target path s.world))
        print ("disk_free_bytes: " <> show free))
        s

  -- `_diagnose`
  unfoldable pub run_diagnosis : FilePath → Exec (Shell W) ℤ
  run_diagnosis config_path = do
    found ← prepared config_path
    print ("config: ok (" <> (config_path <> ")"))
    print ("python: " <> python_version)
    failed ← diagnose_buses (values found.0.buses) false
    print_free found.0.database.path
    pure (if failed then pos 1 else pos 0)

  abbrev pub journal_if_ok : ℤ → Exec (Shell W) ℤ
  journal_if_ok code = if is_zero code then (show_journal m >> pure code) else pure code

  -- The body of `try` in `main`.
  unfoldable pub run_command : Command → Exec (Shell W) ℤ
  run_command (validate config) = validate_config config
  run_command (enable config) = validate_config config >>= λ _. enable_service m
  run_command (start config) = validate_config config >>= λ _. start_service m
  run_command (restart config) = validate_config config >>= λ _. restart_service m
  run_command disable = disable_service m
  run_command stop = stop_service m
  run_command (status config status_path) = show_status m >> report_status config status_path
  run_command (diagnose config) = run_diagnosis config >>= journal_if_ok
  run_command (collect config status_path) = do
    found ← prepared config
    on_machine (m.collect found.0 found.1 status_path)
    pure (pos 0)

  abbrev pub handle : Result ℤ × Shell W → Result ℤ × Shell W
  handle (ok code, s) = (ok code, s)
  handle (err e, s) =
      if is_caught e.kind then (ok (pos 1), print_error ("error: " <> e.message) s) else (err e, s)

  unfoldable pub main : Command → Exec (Shell W) ℤ
  main command s = handle (run_command command s)
