-- ===== src/Tests/Status.antt =====
-- src/runtime/status.py on one sensor.
use sensorctl.Prelude.{◌≡◌, refl, true, false, [], ◌∷◌, none, some, Exception, runtime_error, ok}
use sensorctl.Prelude.Dict.{lookup, insert}
use sensorctl.Runtime.Status.{RuntimeStats, fresh_status, init, can_run, success}
use sensorctl.Runtime.Status.Backoff.{fail_all, backoff_window, backoff_ends}

abbrev broken : Exception
broken = record { kind = runtime_error; message = "no answer" }

abbrev one_sensor : RuntimeStats
one_sensor = record {
  sensors = ("a", fresh_status) ∷ [];
  started_at = "2026-01-01 00:00:00.000";
  last_commit_at = none;
  accepted_count = 0;
  committed_count = 0;
  shutdown_report = none;
}

init_one : init ("a" ∷ []) "2026-01-01 00:00:00.000" ≡ one_sensor
unfolding init insert
init_one = refl

one_sensor_lookup : lookup "a" one_sensor.sensors ≡ some fresh_status
unfolding lookup
one_sensor_lookup = refl

-- Three failures in a row: four seconds.
backoff_window_example :
    (can_run "a" 12_000
      (fail_all "a" ((broken, 0) ∷ (broken, 1000) ∷ (broken, 5000) ∷ []) one_sensor).1).0
    ≡ ok true
backoff_window_example =
    backoff_window "a" broken 0 ((broken, 1000) ∷ (broken, 5000) ∷ []) fresh_status one_sensor
      12_000 one_sensor_lookup refl

backoff_ends_example :
    let failed = (fail_all "a" ((broken, 0) ∷ []) one_sensor).1 in
    ((can_run "a" 999 failed).0 ≡ ok false)
    × ((can_run "a" 60_000 failed).0 ≡ ok true)
    × ((success "a" "t" failed).0 ≡ ok true)
    × ((can_run "a" 500 (success "a" "t" failed).1).0 ≡ ok true)
backoff_ends_example =
    backoff_ends "a" broken 0 [] fresh_status one_sensor 500 "t" one_sensor_lookup
