-- ===== src/Commands/Service.antt =====
-- src/service.py: the service manager. A process is its arguments, and gives its return code.
use sensorctl.Prelude.{String, List, [], ◌∷◌, ◌++◌, require, permission_error, if◌then◌else◌}
use sensorctl.Prelude.Int.{ℤ}
use sensorctl.Prelude.Exec.{Exec, pure, lift, ◌>>=◌, ◌>>◌}
use sensorctl.Commands.Shell.{Machine, Shell, on_machine}

abbrev pub service_name : String
service_name = "service"

module _ {D W : Type 0} (m : Machine D W) where
  -- `subprocess.run(arguments, check=False).returncode`
  unfoldable pub run_process : List String → Exec (Shell W) ℤ
  run_process arguments s =
      on_machine (m.run arguments) (record s { processes = s.processes ++ arguments ∷ [] })

  unfoldable pub require_root : Exec (Shell W) (Unit {0})
  require_root s =
      lift (require (m.is_root s.world) permission_error "this command must run as root") s

  unfoldable pub systemctl : List String → Exec (Shell W) ℤ
  unfolding run_process
  systemctl arguments = run_process ("systemctl" ∷ arguments ++ service_name ∷ [])

  -- The five commands that need root.
  unfoldable pub control : List String → Exec (Shell W) ℤ
  unfolding require_root systemctl
  control arguments = require_root >> systemctl arguments

  abbrev pub enable_service : Exec (Shell W) ℤ
  enable_service = control ("enable" ∷ "--now" ∷ [])

  abbrev pub disable_service : Exec (Shell W) ℤ
  disable_service = control ("disable" ∷ "--now" ∷ [])

  abbrev pub start_service : Exec (Shell W) ℤ
  start_service = control ("start" ∷ [])

  abbrev pub stop_service : Exec (Shell W) ℤ
  stop_service = control ("stop" ∷ [])

  abbrev pub restart_service : Exec (Shell W) ℤ
  restart_service = control ("restart" ∷ [])

  unfoldable pub show_status : Exec (Shell W) (Unit {0})
  unfolding systemctl
  show_status = do _ ← systemctl ("--no-pager" ∷ "--full" ∷ "status" ∷ []); pure tt

  abbrev pub journal : List String
  journal = "journalctl" ∷ "--no-pager" ∷ "-u" ∷ service_name ∷ "-n" ∷ "20" ∷ []

  unfoldable pub show_journal : Exec (Shell W) (Unit {0})
  unfolding run_process
  show_journal s =
      if m.has_journalctl s.world then (run_process journal >>= λ _. pure tt) s else pure tt s
