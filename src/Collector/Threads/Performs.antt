-- ===== src/Collector/Threads/Performs.antt =====
-- A task that its worker performed, in src/runtime/worker.py, is no longer outstanding.
use sensorctl.Prelude.{
  ◌≡◌, ap, ◌∙◌, subst, inl, inr, arith, String, Bool-cases, false, some, List, str_eq, eq_iff,
  eq_refl,
}
use sensorctl.Config.Sensor.{SensorConfig}
use sensorctl.Hardware.Registry.Unique.{Distinct}
use sensorctl.Runtime.Worker.{ReadTask, Bus, Bench, perform}
use sensorctl.Runtime.Worker.Tasks.{Settled, perform-Settled}
use sensorctl.Runtime.Worker.Steady.{settled-pending}
use sensorctl.Collector.Threads.{waits, reads, tasks_at, SystemState, bench_of, put_back}
use sensorctl.Collector.Threads.Balance.{count, same_sensor}
use sensorctl.Collector.Threads.Safe.{IsOwn, Sound, Safe}

module _ {W : Type 0} (enabled : List SensorConfig) (distinct : Distinct enabled)
    (s : SystemState W) (v : Safe enabled s) where
  pub perform-Safe :
      (bus_id : String) (c : Bus W) (task : ReadTask)
      → (s.stations bus_id).phase ≡ reads task
      → Safe enabled (put_back W bus_id s (perform W c task.sensor (bench_of W bus_id s)).1)
  perform-Safe bus_id c task reading = record {
    each = λ x m. elim (Bool-cases (str_eq task.sensor.id x.id)) [
      | inl here ↦
          subst (Sound after) (same_sensor enabled task.sensor x distinct own.0 m here) settled
      | inr other ↦ others x (v.each x m) other
    ];
    own = v.own;
    own_read = λ j t h. elim (Bool-cases (str_eq bus_id j)) [
      | inl here ↦ let there : waits ≡ reads t = ground (arith, h, here) in absurd (cc)
      | inr other ↦ v.own_read j t (ground (arith, h, other))
    ];
  }
    where
      bench : Bench W
      bench = (perform W c task.sensor (bench_of W bus_id s)).1

      after : SystemState W
      after = put_back W bus_id s bench

      own : IsOwn enabled bus_id (some task)
      own = v.own_read bus_id task reading

      was : Sound s task.sensor
      was = v.each task.sensor own.0

      end :
          Settled W c task.sensor was.has.0
            (bench_of W bus_id s)
            (perform W c task.sensor (bench_of W bus_id s))
      end = perform-Settled W c task.sensor was.has.0 (bench_of W bus_id s) was.has.1

      read_here : (s.stations task.sensor.bus).phase ≡ reads task
      read_here = ap (λ k. (s.stations k).phase) own.1 ∙ reading

      no_other : count task.sensor.id (tasks_at task.sensor.bus s.bus_tasks) ≡ 0
      no_other = ground (arith, was.balanced, read_here, eq_refl task.sensor.id)

      settled : Sound after task.sensor
      settled = record {
        deadline = was.deadline;
        queue = was.queue;
        pending = false;
        has = (
          end.status,
          end.found,
          settled-pending W c task.sensor was.has.0 end.status (bench_of W bus_id s) bench
              end.outcome,
        );
        balanced = ground (arith, no_other, own.1, eq_iff bus_id task.sensor.bus);
      }

      others : (x : SensorConfig) → Sound s x → str_eq task.sensor.id x.id ≡ false → Sound after x
      others x h other = record {
        deadline = h.deadline;
        queue = h.queue;
        pending = h.pending;
        has = (h.has.0, end.others x.id other ∙ h.has.1, h.has.2);
        balanced = ground (arith, h.balanced, other, reading, eq_iff bus_id x.bus);
      }
