-- ===== src/Collector/Threads.antt =====
-- The threads of src/collector.py and src/runtime together, as steps that come in any order: the visits
-- of the scheduler, what the worker of each bus does between its calls of `get`, and what the writer
-- and the shutdown do to what is shared. A visit and a task are one step each.
pub mod Balance
pub mod Safe
pub mod Moves
pub mod Performs
pub mod Visits
pub mod Begin
pub mod Reached
pub mod Bounded
pub mod Outstanding
pub mod Draining
pub mod Unmarked
pub mod Finally
pub mod Passes
use sensorctl.Prelude.{
  ℕ, suc, ◌≡◌, String, Bool, true, false, Option, none, some, List, [], ◌∷◌, if◌then◌else◌, str_eq,
  length, IsIn, Result, ok, err,
}
use sensorctl.Prelude.Dict.{Dict, lookup, insert}
use sensorctl.Model.{Sample}
use sensorctl.Config.Sensor.{SensorConfig}
use sensorctl.Runtime.Status.{committed}
use sensorctl.Runtime.Queue.{Shared, with_stats, get, close}
use sensorctl.Runtime.Worker.{ReadTask, Bus, Bench, perform}
use sensorctl.Collector.Schedule.{Scheduler, intervals_of, visit}
use sensorctl.Collector.Shutdown.{put_none}

-- Where the worker of a bus stands: before it opens its transport, before a `get`, with the task that
-- it took, or out of its loop.
pub data Phase : Type 0 where
  opens : Phase
  waits : Phase
  reads : ReadTask → Phase
  leaves : Phase

-- The worker goes into its loop, or to its cleanup.
abbrev pub after_open : Result (Unit {0}) → Phase
after_open (ok u) = waits
after_open (err e) = leaves

abbrev pub or_empty {ℓ} : {A : Type ℓ} → Option (List A) → List A
or_empty none = []
or_empty (some l) = l

-- The tasks in the queue of a bus.
abbrev pub tasks_at : String → Dict (List (Option ReadTask)) → List (Option ReadTask)
tasks_at bus_id d = or_empty (lookup bus_id d)

-- `Collector.stop`, which a signal calls too.
unfoldable pub request_stop : Shared → Shared
request_stop s = record s { stop_event = true }

module _ (W : Type 0) where
  -- What is the worker's of one bus alone.
  pub record Station : Type 0 where
    pub hardware : W
    pub initialized : List String
    pub last_warning : Dict ℕ
    pub phase : Phase

  pub record SystemState : Type 0 where
    pub shared : Shared
    pub deadlines : Dict ℕ
    pub bus_tasks : Dict (List (Option ReadTask))
    pub stations : String → Station
    pub in_finally : Bool

  abbrev pub place : String → Station → (String → Station) → String → Station
  place bus_id station stations k = if str_eq bus_id k then station else stations k

  abbrev pub scheduler_of : SystemState → Scheduler
  scheduler_of s = record {
    deadlines = s.deadlines;
    stats = s.shared.stats;
    bus_tasks = s.bus_tasks;
  }

  abbrev pub with_scheduler : SystemState → Scheduler → SystemState
  with_scheduler s t = record s {
    shared = record (s.shared) { stats = t.stats };
    deadlines = t.deadlines;
    bus_tasks = t.bus_tasks;
  }

  -- The worker of a bus with a task that it took from the queue and has not marked as done.
  abbrev pub bench_of : String → SystemState → Bench W
  bench_of bus_id s = record {
    hardware = (s.stations bus_id).hardware;
    shared = s.shared;
    tasks = tasks_at bus_id s.bus_tasks;
    unfinished_tasks = suc (length (tasks_at bus_id s.bus_tasks));
    initialized = (s.stations bus_id).initialized;
    last_warning = (s.stations bus_id).last_warning;
  }

  abbrev pub put_back : String → SystemState → Bench W → SystemState
  put_back bus_id s b = record s {
    shared = b.shared;
    stations =
        place bus_id
          (record {
            hardware = b.hardware;
            initialized = b.initialized;
            last_warning = b.last_warning;
            phase = waits;
          })
          s.stations;
  }

  -- The worker of the bus goes on in the given phase, after a `get` if it waited.
  abbrev pub enter : Bus W → String → Phase → SystemState → SystemState
  enter c bus_id phase s = record s {
    stations =
        place bus_id
          (record (s.stations bus_id) {
            hardware = c.wait (s.stations bus_id).hardware;
            phase = phase;
          })
          s.stations;
  }

  -- `self._transport.open()`
  abbrev pub open_station : Bus W → String → SystemState → SystemState
  open_station c bus_id s =
      let (r, w) = c.transport.open_device (s.stations bus_id).hardware in
      record s {
        stations =
            place bus_id (record (s.stations bus_id) { hardware = w; phase = after_open r })
              s.stations;
      }

  abbrev pub with_queue : String → List (Option ReadTask) → SystemState → SystemState
  with_queue bus_id tasks s = record s { bus_tasks = insert bus_id tasks s.bus_tasks }

  -- `self._stop_event.set()` and the end marks of the `finally`.
  abbrev pub begin_finally : SystemState → SystemState
  begin_finally s = record s {
    shared = record (s.shared) { stop_event = true };
    bus_tasks = put_none s.bus_tasks;
    in_finally = true;
  }

  -- One step of one thread, for the workers and the enabled sensors that the collector has.
  pub data Step (workers : Dict (Bus W)) (enabled : List SensorConfig) (s : SystemState)
      : SystemState → Type 0 where
    visits :
        (sensor : SensorConfig) (now : ℕ)
        → s.in_finally ≡ false
        → IsIn sensor enabled
        → Step workers enabled s
            (with_scheduler s (visit (intervals_of enabled []) now sensor (scheduler_of s)).1)
    connects :
        (bus_id : String) (c : Bus W)
        → lookup bus_id workers ≡ some c
        → (s.stations bus_id).phase ≡ opens
        → Step workers enabled s (open_station c bus_id s)
    takes :
        (bus_id : String) (c : Bus W) (task : ReadTask) (rest : List (Option ReadTask))
        → lookup bus_id workers ≡ some c
        → (s.stations bus_id).phase ≡ waits
        → lookup bus_id s.bus_tasks ≡ some (some task ∷ rest)
        → Step workers enabled s (enter c bus_id (reads task) (with_queue bus_id rest s))
    performs :
        (bus_id : String) (c : Bus W) (task : ReadTask)
        → lookup bus_id workers ≡ some c
        → (s.stations bus_id).phase ≡ reads task
        → Step workers enabled s (put_back bus_id s (perform W c task.sensor (bench_of bus_id s)).1)
    times_out :
        (bus_id : String) (c : Bus W)
        → lookup bus_id workers ≡ some c
        → (s.stations bus_id).phase ≡ waits
        → lookup bus_id s.bus_tasks ≡ some []
        → Step workers enabled s (enter c bus_id waits s)
    ends :
        (bus_id : String) (c : Bus W) (rest : List (Option ReadTask))
        → lookup bus_id workers ≡ some c
        → (s.stations bus_id).phase ≡ waits
        → lookup bus_id s.bus_tasks ≡ some (none ∷ rest)
        → Step workers enabled s (enter c bus_id leaves (with_queue bus_id rest s))
    stops :
        (bus_id : String) (c : Bus W)
        → lookup bus_id workers ≡ some c
        → (s.stations bus_id).phase ≡ waits
        → c.is_stopped (s.stations bus_id).hardware ≡ true
        → lookup bus_id s.bus_tasks ≡ some []
        → Step workers enabled s (record s {
          stations = place bus_id (record (s.stations bus_id) { phase = leaves }) s.stations;
        })
    signals : Step workers enabled s (record s { shared = request_stop s.shared })
    finishes : s.in_finally ≡ false → Step workers enabled s (begin_finally s)
    closes : s.in_finally ≡ true → Step workers enabled s (record s { shared = close s.shared })
    gets : Step workers enabled s (record s { shared = (get s.shared).1 })
    commits :
        (samples : List Sample) (committed_at : String)
        → Step workers enabled s
            (record s { shared = (with_stats (committed samples committed_at) s.shared).1 })

  pub data Reach (workers : Dict (Bus W)) (enabled : List SensorConfig) (s : SystemState)
      : SystemState → Type 0 where
    here : Reach workers enabled s s
    later :
        {t u : SystemState}
        → Reach workers enabled s t
        → Step workers enabled t u
        → Reach workers enabled s u
