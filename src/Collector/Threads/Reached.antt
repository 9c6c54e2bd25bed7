-- ===== src/Collector/Threads/Reached.antt =====
-- What holds after any steps of the threads of src/collector.py.
use sensorctl.Prelude.{
  ◌≡◌, refl, ap, ◌∙◌, String, Option, none, some, List, [], ◌∷◌, Result, ok, err, All,
}
use sensorctl.Prelude.Dict.{Dict, lookup}
use sensorctl.Runtime.Status.{RuntimeStats, committed}
use sensorctl.Config.Sensor.{SensorConfig}
use sensorctl.Hardware.Registry.Unique.{Distinct}
use sensorctl.Runtime.Status.Pending.{committed-KeepsPending}
use sensorctl.Runtime.Queue.{Shared, get, take_front, close, with_stats}
use sensorctl.Runtime.Worker.{ReadTask, Bus}
use sensorctl.Model.{Sample}
use sensorctl.Collector.Schedule.Lookups.{Positive}
use sensorctl.Collector.Threads.{
  waits, reads, leaves, after_open, request_stop, SystemState, Step, visits, connects, takes,
  performs, times_out, ends, stops, signals, finishes, closes, gets, commits, Reach, here, later,
}
use sensorctl.Collector.Threads.Balance.{at_worker}
use sensorctl.Collector.Threads.Safe.{Safe, shared-Safe}
use sensorctl.Collector.Threads.Moves.{get-Safe, idle-Safe, finally-Safe}
use sensorctl.Collector.Threads.Performs.{perform-Safe}
use sensorctl.Collector.Threads.Visits.{visit-Safe}

none_opened : (id : String) (r : Result (Unit {0})) → at_worker id (after_open r) ≡ 0
none_opened id (ok u) = refl
none_opened id (err e) = refl

no_task_opened : (r : Result (Unit {0})) (task : ReadTask) → after_open r ≡ reads task → ⊥
no_task_opened (ok u) task h = cc
no_task_opened (err e) task h = cc

taken_itself : (task t : ReadTask) → reads task ≡ reads t → some task ≡ some t
taken_itself task t h = cc

stats_got : (s : Shared) (items : List (Option Sample)) → (take_front s items).1.stats ≡ s.stats
stats_got s [] = refl
stats_got s (x ∷ items) = refl

module _ {W : Type 0} (workers : Dict (Bus W)) (enabled : List SensorConfig)
    (distinct : Distinct enabled) (positive : All Positive enabled) where
  pub Step-Safe :
      {s t : SystemState W} → Step W workers enabled s t → Safe enabled s → Safe enabled t
  unfolding get close request_stop
  Step-Safe {s} (visits sensor now _ m) v = visit-Safe enabled distinct s v sensor m now positive
  Step-Safe {s} (connects bus_id c _ opening) v =
      let r = c.transport.open_device (s.stations bus_id).hardware in
      idle-Safe enabled s v bus_id
        (record (s.stations bus_id) { hardware = r.1; phase = after_open r.0 })
        (λ id. ap (at_worker id) opening) (λ id. none_opened id r.0)
        (λ task h. no_task_opened r.0 task h)
  Step-Safe {s} (takes bus_id c task rest _ waiting front) v =
      get-Safe enabled s v bus_id (some task) rest
        (record (s.stations bus_id) {
          hardware = c.wait (s.stations bus_id).hardware;
          phase = reads task;
        })
        waiting front (λ id. refl) (λ t h. taken_itself task t h)
  Step-Safe {s} (performs bus_id c task _ reading) v =
      perform-Safe enabled distinct s v bus_id c task reading
  Step-Safe {s} (times_out bus_id c _ waiting _) v =
      idle-Safe enabled s v bus_id
        (record (s.stations bus_id) {
          hardware = c.wait (s.stations bus_id).hardware;
          phase = waits;
        })
        (λ id. ap (at_worker id) waiting) (λ id. refl) (λ task h. cc)
  Step-Safe {s} (ends bus_id c rest _ waiting front) v =
      get-Safe enabled s v bus_id none rest
        (record (s.stations bus_id) {
          hardware = c.wait (s.stations bus_id).hardware;
          phase = leaves;
        })
        waiting front (λ id. refl) (λ task h. cc)
  Step-Safe {s} (stops bus_id c _ waiting _ _) v =
      idle-Safe enabled s v bus_id (record (s.stations bus_id) { phase = leaves })
        (λ id. ap (at_worker id) waiting) (λ id. refl) (λ task h. cc)
  Step-Safe {s} signals v = shared-Safe enabled s (request_stop s.shared) (λ id p h. h) v
  Step-Safe {s} (finishes _) v = finally-Safe enabled s v
  Step-Safe {s} (closes _) v = shared-Safe enabled s (close s.shared) (λ id p h. h) v
  Step-Safe {s} gets v =
      shared-Safe enabled s (get s.shared).1
        (λ id p (st, found, h). (
          st,
          ap (λ (stats : RuntimeStats). lookup id stats.sensors)
                (stats_got s.shared s.shared.queue.items)
              ∙ found,
          h,
        ))
        v
  Step-Safe {s} (commits samples committed_at) v =
      shared-Safe enabled s (with_stats (committed samples committed_at) s.shared).1
        (committed-KeepsPending samples committed_at s.shared.stats) v

  pub Reach-Safe :
      {s t : SystemState W} → Safe enabled s → Reach W workers enabled s t → Safe enabled t
  Reach-Safe v here = v
  Reach-Safe v (later r step) = Step-Safe step (Reach-Safe v r)
