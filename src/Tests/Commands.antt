-- ===== src/Tests/Commands.antt =====
-- src/commands.py on a machine whose state is the user's number: 0 is root.
use sensorctl.Prelude.{
  ℕ, ◌≡◌, refl, true, [], ◌∷◌, ok, str_eq, if◌then◌else◌, ◌==◌, String, unicode_error, os_error,
}
use sensorctl.Prelude.Int.{pos}
use sensorctl.Prelude.Exec.{pure}
use sensorctl.Config.Paths.{path_parent}
use sensorctl.Config.Load.{Source, document, unreadable, load_config}
use sensorctl.Hardware.Registry.{set_size, create, check_driver, make_driver, prepare_all, prepare}
use sensorctl.Commands.Shell.{Json, number, object, end, member, members, Machine, Shell}
use sensorctl.Commands.Service.{
  run_process, require_root, systemctl, control, show_status, show_journal,
}
use sensorctl.Commands.Status.{insert_sorted, sort_items, print_sensors, print_payload}
use sensorctl.Commands.Main.{
  enable, start, stop, validate, prepare_config, validate_config, print_database, report_status,
  check_device, diagnose_bus, diagnose_buses, run_diagnosis, run_command, main,
}
use sensorctl.Commands.Permitted.{HasStarted, IsPermitted, main-HasStarted}
use sensorctl.Commands.Exit.{EndOf, controls, main-ControlEnd}
use sensorctl.Commands.Refusal.{ValidateEnd, main-ValidateEnd}
use sensorctl.Tests.Config.{ascii, two_sensors}
use sensorctl.Tests.Hardware.{factories}

abbrev source_of : String → Source
source_of path =
    if str_eq path "good.toml"
    then document (two_sensors 0x77)
    else if str_eq path "bytes.toml"
    then unreadable (record { kind = unicode_error; message = "utf-8" })
    else unreadable (record { kind = os_error; message = "no such file" })

abbrev report : Json
report = object (member "queue" (object (member "size" (number "3") end)) end)

abbrev machine : Machine (Unit {0}) ℕ
machine = record {
  unicode_digit = ascii;
  factories = factories;
  read_toml = λ path w. source_of path;
  is_root = λ w. w == 0;
  run = λ arguments w. (ok (pos 5), w);
  has_journalctl = λ w. true;
  exists = λ path w. str_eq path "/dev/i2c-1";
  file_size = λ path. pure 0;
  disk_free = λ path. pure 1000;
  load_json = λ path. pure report;
  text_of = λ v. elim v [ number n ↦ n | Json.text t ↦ t | _ ↦ "None" ];
  python_version = "3.13.1";
  collect = λ config prepared path. pure tt;
}

abbrev shell : ℕ → Shell ℕ
shell user = record { world = user; processes = []; output = []; error_output = [] }

opened : Unit {0}
unfolding main run_command run_diagnosis diagnose_buses diagnose_bus check_device report_status
    print_database print_payload print_sensors sort_items insert_sorted validate_config
    prepare_config show_status show_journal control systemctl require_root run_process members
    load_config path_parent prepare prepare_all make_driver create check_driver set_size
opened = tt

-- A user cannot stop the service.
no_root : main machine stop (shell 1000) ≡ (
  ok (pos 1),
  record (shell 1000) { error_output = "error: this command must run as root" ∷ [] },
)
unfolding opened
no_root = refl

-- Root gets the code of systemctl.
code_passed : (main machine stop (shell 0)).0 ≡ ok (pos 5)
unfolding opened
code_passed = refl

main-HasStarted_example :
    HasStarted machine
      (IsPermitted machine (enable "good.toml") (shell 0))
      (shell 0)
      (main machine (enable "good.toml") (shell 0))
main-HasStarted_example = main-HasStarted machine (enable "good.toml") (shell 0)

main-ControlEnd_example :
    EndOf machine
      (controls (start "good.toml"))
      (shell 0)
      (main machine (start "good.toml") (shell 0))
main-ControlEnd_example = main-ControlEnd machine (start "good.toml") (shell 0)

main-ValidateEnd_example :
    ValidateEnd machine "bytes.toml" (shell 1) (main machine (validate "bytes.toml") (shell 1))
main-ValidateEnd_example = main-ValidateEnd machine "bytes.toml" (shell 1)
