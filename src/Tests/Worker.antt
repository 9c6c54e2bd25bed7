-- ===== src/Tests/Worker.antt =====
-- src/runtime/worker.py on a sensor that answers from a list.
use sensorctl.Prelude.{
  ℕ, ◌+◌, ◌≡◌, refl, true, false, Option, none, some, List, [], ◌∷◌, arith, Exception,
  runtime_error, Result, ok, err,
}
use sensorctl.Prelude.Int.{pos}
use sensorctl.Prelude.Dict.{Dict, lookup, insert, mem}
use sensorctl.Prelude.Exec.{pure}
use sensorctl.Model.{Float, finite, nan}
use sensorctl.Config.Sensor.{SensorConfig}
use sensorctl.Hardware.Driver.{SensorDriver}
use sensorctl.Runtime.Status.{RuntimeStats, fresh_status, success, failure, accepted, dropped}
use sensorctl.Runtime.Queue.{new_queue, submit}
use sensorctl.Runtime.Worker.{
  Bus, Bench, ReadTask, Turn, check_values, read_loop, measure, perform, run, discard, take, turn,
  loop, clean_up, leave, close_drivers, recover, ensure_initialized,
}
use sensorctl.Runtime.Worker.Reads.{Attempts, read_loop-Attempts}
use sensorctl.Runtime.Worker.Tasks.{Settled, perform-Settled}
use sensorctl.Runtime.Worker.Steady.{IsQuiet, IsListed}
use sensorctl.Runtime.Worker.Drain.{Drained, run-Drained}

-- A sensor whose answers are listed, and a clock that each read moves on by a millisecond.
record Lab : Type 0 where
  answers : List (Result (Dict Float))
  clock : ℕ

abbrev broken : Exception
broken = record { kind = runtime_error; message = "no answer" }

abbrev answer : Lab → List (Result (Dict Float)) → Result (Dict Float) × Lab
answer l [] = (err broken, record l { clock = l.clock + 1_000_000 })
answer l (a ∷ rest) = (a, record { answers = rest; clock = l.clock + 1_000_000 })

abbrev driver : SensorDriver Lab
driver = record {
  fields = record { name = "value"; unit = "count" } ∷ [];
  supported_bus_types = "mock" ∷ [];
  initialize = pure tt;
  read = λ l. answer l l.answers;
  close = pure tt;
}

abbrev bus : Bus Lab
bus = record {
  transport = record { open_device = pure tt; close_device = pure tt };
  drivers = ("a", driver) ∷ [];
  boot_id = "boot";
  retries = 1;
  monotonic_ns = λ (l : Lab). l.clock;
  local_now = λ l. "now";
  is_stopped = λ l. false;
  wait = λ l. l;
}

abbrev sensor : SensorConfig
sensor = record {
  id = "a";
  driver = "mock";
  bus = "main";
  interval_ms = 1000;
  location = "roof";
  enabled = true;
  address = none;
  options = [];
}

abbrev stats : RuntimeStats
stats = record {
  sensors = ("a", record fresh_status { pending = true }) ∷ [];
  started_at = "2026-01-01 00:00:00.000";
  last_commit_at = none;
  accepted_count = 0;
  committed_count = 0;
  shutdown_report = none;
}

abbrev three : Dict Float
three = ("value", finite (pos 3) 0) ∷ []

abbrev not_a_number : Dict Float
not_a_number = ("value", nan) ∷ []

abbrev lab : List (Result (Dict Float)) → Lab
lab answers = record { answers = answers; clock = 7_000_000 }

abbrev bench : List (Result (Dict Float)) → List (Option ReadTask) → Bench Lab
bench answers tasks = record {
  hardware = lab answers;
  shared = record { stats = stats; queue = new_queue 5; stop_event = false };
  tasks = tasks;
  unfinished_tasks = 2;
  initialized = [];
  last_warning = [];
}

abbrev task : ReadTask
task = record { sensor = sensor }

opened : Unit {0}
unfolding check_values read_loop measure perform run discard take turn loop clean_up leave
    close_drivers recover ensure_initialized success failure accepted dropped submit lookup insert
    mem
opened = tt

-- The second read counts, with the clock before it.
second_read :
    (read_loop Lab bus driver 2 none (lab (err broken ∷ ok three ∷ []))).0
    ≡ ok (record { read_at = "now"; monotonic_ms = 8; values = three })
unfolding opened
second_read = refl

submits_sample :
    (perform Lab bus sensor (bench (err broken ∷ ok three ∷ []) [])).1.shared.queue.items
    ≡ some (record {
      sensor_id = "a";
      time = "now";
      monotonic_ms = 8;
      boot_id = "boot";
      values = three;
    })
      ∷ []
unfolding opened
submits_sample = refl

refuses_nan : (perform Lab bus sensor (bench (ok not_a_number ∷ []) [])).1.shared.queue.items ≡ []
unfolding opened
refuses_nan = refl

read_loop-Attempts_example :
    Attempts Lab bus driver 2
      (lab (err broken ∷ ok three ∷ []))
      (read_loop Lab bus driver 2 none (lab (err broken ∷ ok three ∷ [])))
read_loop-Attempts_example = read_loop-Attempts Lab bus driver (lab (err broken ∷ ok three ∷ []))

listed : IsListed stats "a"
unfolding lookup
listed = (record fresh_status { pending = true }, refl)

known : lookup "a" stats.sensors ≡ some (record fresh_status { pending = true })
unfolding lookup
known = refl

perform-Settled_example :
    Settled Lab bus sensor
      (record fresh_status { pending = true })
      (bench (ok three ∷ []) [])
      (perform Lab bus sensor (bench (ok three ∷ []) []))
perform-Settled_example =
    perform-Settled Lab bus sensor (record fresh_status { pending = true })
      (bench (ok three ∷ []) []) known

abbrev idle_turn : Turn
idle_turn = record { arrivals = []; others = λ s. s }

idle_turn-IsQuiet : IsQuiet idle_turn
idle_turn-IsQuiet s = record { listed = λ k h. h; idle = λ k h. h }

run-Drained_example :
    Drained Lab bus
      (task ∷ [])
      (run Lab bus (idle_turn ∷ idle_turn ∷ []) (bench (ok three ∷ []) (some task ∷ none ∷ [])))
run-Drained_example =
    run-Drained Lab bus (task ∷ []) [] (idle_turn ∷ idle_turn ∷ [])
      (bench (ok three ∷ []) (some task ∷ none ∷ [])) refl
      (record { drivers = ((λ w. refl), tt); transport = λ w. refl }) refl (omega arith)
      (idle_turn-IsQuiet, (idle_turn-IsQuiet, tt)) (listed, tt)
