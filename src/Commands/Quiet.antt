-- ===== src/Commands/Quiet.antt =====
-- The parts of src/commands.py that start no process.
use sensorctl.Prelude.{
  ◌≡◌, refl, ◌∙◌, arith, String, Bool, true, false, List, [], ◌∷◌, ◌++◌, if◌then◌else◌, if-cases,
  Result, ok, err, ◌<>◌,
}
use sensorctl.Prelude.{◌>>=◌ as ◌>>>=◌}
use sensorctl.Prelude.Int.{pos}
use sensorctl.Prelude.Dict.{Dict, values}
use sensorctl.Prelude.Exec.{Exec, pure, lift, ◌>>=◌, ◌>>◌, >>=-cases}
use sensorctl.Config.Paths.{FilePath}
use sensorctl.Config.Bus.{BusConfig}
use sensorctl.Config.Load.{AppConfig}
use sensorctl.Hardware.Registry.{PreparedDrivers}
use sensorctl.Commands.Shell.{Json, null, object, end, Machine, Shell, on_machine, print}
use sensorctl.Commands.Status.{
  print_payload, print_sensors, sensor_line, queue_line, get, items, sort_items,
}
use sensorctl.Commands.Main.{
  prepared, print_database, after_status, read_status, report_status, check_device, diagnose_bus,
  diagnose_buses, print_free, run_diagnosis,
}

module _ {D W : Type 0} (m : Machine D W) where
  -- A computation that starts no process.
  abbrev pub IsQuiet {ℓ} : {A : Type ℓ} → Exec (Shell W) A → Type 0
  IsQuiet f = (s : Shell W) → (f s).1.processes ≡ s.processes

  pub bind-IsQuiet {ℓ κ} :
      {A : Type ℓ} {B : Type κ} (f : Exec (Shell W) A) (g : A → Exec (Shell W) B)
      → IsQuiet f
      → ((a : A) → IsQuiet (g a))
      → IsQuiet (f >>= g)
  bind-IsQuiet f g qf qg s =
      >>=-cases (λ r. r.1.processes ≡ s.processes) f g s (λ a _. qg a (f s).1 ∙ qf s) (λ e _. qf s)

  lift-IsQuiet {ℓ κ} :
      {A : Type ℓ} {B : Type κ} (r : Result A) (g : A → Exec (Shell W) B)
      → ((a : A) → IsQuiet (g a))
      → IsQuiet (lift r >>= g)
  lift-IsQuiet r g qg = bind-IsQuiet (lift r) g (λ s. refl) qg

  print-IsQuiet {κ} :
      {B : Type κ} (line : String) (g : Exec (Shell W) B) → IsQuiet g → IsQuiet (print line >> g)
  print-IsQuiet line g qg = bind-IsQuiet (print line) (λ _. g) (λ s. refl) (λ _. qg)

  print_database-IsQuiet : (path : FilePath) → IsQuiet (print_database m path)
  unfolding print_database
  print_database-IsQuiet path s = ground arith

  print_sensors-IsQuiet : (d : Dict Json) → IsQuiet (print_sensors m d)
  unfolding print_sensors
  print_sensors-IsQuiet [] = λ s. refl
  print_sensors-IsQuiet ((k, v) ∷ d) =
      bind-IsQuiet (lift (sensor_line m k v)) (λ line. print line >> print_sensors m d) (λ s. refl)
        (λ line.
          bind-IsQuiet (print line) (λ _. print_sensors m d) (λ s. refl)
            (λ _. print_sensors-IsQuiet d))

  print_payload-IsQuiet : (payload : Json) → IsQuiet (print_payload m payload)
  unfolding print_payload
  print_payload-IsQuiet payload s =
      let sensors = get payload "sensors" (object end) >>>= items in
      let last = lift {S = Shell W} sensors >>= λ d. print_sensors m (sort_items d) in
      let commit = λ (at : Json). print {W = W} ("last_commit_at: " <> m.text_of at) >> last in
      let committed = lift {S = Shell W} (get payload "last_commit_at" null) >>= commit in
      let queue = λ (line : String). print {W = W} line >> committed in
      lift-IsQuiet (get payload "queue" (object end))
        (λ queue_status. lift (queue_line m queue_status) >>= queue)
        (λ queue_status. lift-IsQuiet (queue_line m queue_status) queue (λ line.
          print-IsQuiet line committed (
            lift-IsQuiet (get payload "last_commit_at" null) commit (λ at.
              print-IsQuiet ("last_commit_at: " <> m.text_of at) last (
                lift-IsQuiet sensors (λ d. print_sensors m (sort_items d))
                  (λ d. print_sensors-IsQuiet (sort_items d)))))))
        (record s { output = s.output ++ "runtime: available" ∷ [] })

  diagnose_bus-IsQuiet : (bus : BusConfig) → IsQuiet (diagnose_bus m bus)
  unfolding diagnose_bus check_device
  diagnose_bus-IsQuiet bus s = ground arith

  diagnose_buses-IsQuiet :
      (buses : List BusConfig) (failed : Bool) → IsQuiet (diagnose_buses m buses failed)
  unfolding diagnose_buses
  diagnose_buses-IsQuiet [] failed = λ s. refl
  diagnose_buses-IsQuiet (bus ∷ buses) failed =
      bind-IsQuiet (diagnose_bus m bus) _ (diagnose_bus-IsQuiet bus) (λ missing.
        if-cases IsQuiet missing (diagnose_buses m buses true) (diagnose_buses m buses failed)
          (λ _. diagnose_buses-IsQuiet buses true) (λ _. diagnose_buses-IsQuiet buses failed))

  after_status-IsQuiet : (r : Result Json) → IsQuiet (after_status m r)
  after_status-IsQuiet (ok payload) = print_payload-IsQuiet payload
  after_status-IsQuiet (err e) = λ s. ground arith

  read_status-IsQuiet : (path : FilePath) → IsQuiet (read_status m path)
  read_status-IsQuiet path s =
      after_status-IsQuiet (on_machine (m.load_json path) s).0 (on_machine (m.load_json path) s).1

  pub report_status-IsQuiet :
      (config status_path : FilePath) → IsQuiet (report_status m config status_path)
  unfolding report_status
  report_status-IsQuiet config status_path =
      let found = prepared m config in
      let end = read_status m status_path >> pure (pos 0) in
      let rest = λ (path : FilePath). print_database m path >> end in
      bind-IsQuiet found
        (λ found. print ("database: " <> found.0.database.path) >> rest found.0.database.path)
        (λ s. refl)
        (λ found.
          print-IsQuiet ("database: " <> found.0.database.path) (rest found.0.database.path) (
            bind-IsQuiet (print_database m found.0.database.path) (λ _. end)
              (print_database-IsQuiet found.0.database.path)
              (λ _.
                bind-IsQuiet (read_status m status_path) (λ _. pure (pos 0))
                  (read_status-IsQuiet status_path) (λ _ s. refl))))

  print_free-IsQuiet : (path : FilePath) → IsQuiet (print_free m path)
  print_free-IsQuiet path s = ground arith

  pub run_diagnosis-IsQuiet : (config : FilePath) → IsQuiet (run_diagnosis m config)
  unfolding run_diagnosis
  run_diagnosis-IsQuiet config =
      let last = λ (path : FilePath) (failed : Bool).
        print_free m path >> pure (if failed then pos 1 else pos 0) in
      let buses = λ (found : AppConfig × PreparedDrivers D).
        diagnose_buses m (values found.0.buses) false >>= last found.0.database.path in
      let version = λ (found : AppConfig × PreparedDrivers D).
        print {W = W} ("python: " <> m.python_version) >> buses found in
      bind-IsQuiet (prepared m config)
        (λ found. print ("config: ok (" <> (config <> ")")) >> version found) (λ s. refl)
        (λ found. print-IsQuiet ("config: ok (" <> (config <> ")")) (version found) (
          print-IsQuiet ("python: " <> m.python_version) (buses found) (
            bind-IsQuiet (diagnose_buses m (values found.0.buses) false)
              (last found.0.database.path) (diagnose_buses-IsQuiet (values found.0.buses) false)
              (λ failed.
                bind-IsQuiet (print_free m found.0.database.path)
                  (λ _. pure (if failed then pos 1 else pos 0))
                  (print_free-IsQuiet found.0.database.path) (λ _ s. refl)))))
