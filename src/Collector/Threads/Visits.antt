-- ===== src/Collector/Threads/Visits.antt =====
-- A visit of the scheduler of src/collector.py: a new task is outstanding for a sensor that was idle.
use sensorctl.Prelude.{
  ℕ, ◌≤◌, ◌≡◌, refl, sym, ap, ◌∙◌, subst, ◌⊎◌, inl, inr, arith, Bool-cases, true, false, Option,
  some, List, [], ◌∷◌, ◌++◌, str_eq, eq_iff, eq_refl, ltb, Result, All, All-at, IsIn,
}
use sensorctl.Prelude.Dict.{Dict, lookup, insert}
use sensorctl.Config.Sensor.{SensorConfig}
use sensorctl.Hardware.Registry.Unique.{Distinct}
use sensorctl.Runtime.Status.{SensorStatus}
use sensorctl.Runtime.Worker.{ReadTask}
use sensorctl.Collector.Schedule.{Scheduler, intervals_of, visit}
use sensorctl.Collector.Schedule.Visits.{Visited, Decided, visit-Visited, task_of}
use sensorctl.Prelude.Dict.{Listed, Listed-insert}
use sensorctl.Collector.Schedule.Lookups.{HasInterval, Positive, intervals_of_all}
use sensorctl.Collector.Threads.{tasks_at, SystemState, scheduler_of, with_scheduler}
use sensorctl.Collector.Threads.Balance.{count-append, tasks_at-insert, same_sensor}
use sensorctl.Collector.Threads.Safe.{IsOwn, Sound, Safe}

module _ {W : Type 0} (enabled : List SensorConfig) (distinct : Distinct enabled)
    (s : SystemState W) (v : Safe enabled s) (sensor : SensorConfig) (m : IsIn sensor enabled)
    (now : ℕ) where
  IsOwn-append :
      (l : List (Option ReadTask))
      → All (IsOwn enabled sensor.bus) l
      → All (IsOwn enabled sensor.bus) (l ++ task_of sensor ∷ [])
  IsOwn-append [] h = ((m, refl), tt)
  IsOwn-append (x ∷ l) h = (h.0, IsOwn-append l h.1)

  pub was : Sound s sensor
  was = v.each sensor m

  at_bus : tasks_at sensor.bus s.bus_tasks ≡ was.queue.0
  at_bus = ground (arith, was.queue.1)

  -- After a visit that was due.
  due-Safe :
      (deadline interval : ℕ) (result : Result (Unit {0}) × Scheduler)
      → Visited sensor now was.has.0 was.queue.0 deadline interval (scheduler_of W s) result
      → Safe enabled (with_scheduler W s result.1)
  due-Safe deadline interval result e = decide e.decided
    where
      t : SystemState W
      t = with_scheduler W s result.1

      deadlines : (x : SensorConfig) → Sound s x → Listed x.id t.deadlines
      deadlines x h =
          subst (Listed x.id) (sym e.rescheduled)
            (Listed-insert sensor.id x.id _ s.deadlines h.deadline)

      decide :
          Decided sensor now was.has.0 was.queue.0 e.periods e.status s.bus_tasks t.bus_tasks
          → Safe enabled t
      decide (inl (idle, _, pending, _, put)) = record {
        each = λ x h. elim (Bool-cases (str_eq sensor.id x.id)) [
          | inl here ↦ subst (Sound t) (same_sensor enabled sensor x distinct m h here) (record {
            deadline = deadlines sensor was;
            queue =
                subst (Listed sensor.bus) (sym put)
                  (Listed-insert sensor.bus sensor.bus _ s.bus_tasks was.queue);
            pending = true;
            has = (e.status, e.found, pending);
            balanced = ground (
              arith,
              ap (tasks_at sensor.bus) put,
              tasks_at-insert sensor.bus sensor.bus (was.queue.0 ++ task_of sensor ∷ [])
                  s.bus_tasks,
              count-append sensor.id was.queue.0 (task_of sensor ∷ []),
              at_bus,
              eq_refl sensor.bus,
              eq_refl sensor.id,
              was.balanced,
              was.has.2,
              idle,
            );
          })
          | inr other ↦
              let old = v.each x h in
              record {
                deadline = deadlines x old;
                queue =
                    subst (Listed x.bus) (sym put)
                      (Listed-insert sensor.bus x.bus _ s.bus_tasks old.queue);
                pending = old.pending;
                has = (old.has.0, e.others x.id other ∙ old.has.1, old.has.2);
                balanced = ground (
                  arith,
                  ap (tasks_at x.bus) put,
                  tasks_at-insert sensor.bus x.bus (was.queue.0 ++ task_of sensor ∷ []) s.bus_tasks,
                  count-append x.id was.queue.0 (task_of sensor ∷ []),
                  at_bus,
                  eq_iff sensor.bus x.bus,
                  other,
                  old.balanced,
                );
              }
        ];
        own = λ j. elim (Bool-cases (str_eq sensor.bus j)) [
          | inl here ↦
              let new : tasks_at j t.bus_tasks ≡ was.queue.0 ++ task_of sensor ∷ [] = ground (
                arith,
                ap (tasks_at j) put,
                here,
                tasks_at-insert sensor.bus j (was.queue.0 ++ task_of sensor ∷ []) s.bus_tasks,
              ) in
              subst (All (IsOwn enabled j)) (sym new) (
                subst (λ k. All (IsOwn enabled k) (was.queue.0 ++ task_of sensor ∷ []))
                  ((eq_iff sensor.bus j).0 here)
                  (IsOwn-append was.queue.0
                    (subst (All (IsOwn enabled sensor.bus)) at_bus (v.own sensor.bus))))
          | inr other ↦
              let old : tasks_at j t.bus_tasks ≡ tasks_at j s.bus_tasks = ground (
                arith,
                ap (tasks_at j) put,
                other,
                tasks_at-insert sensor.bus j (was.queue.0 ++ task_of sensor ∷ []) s.bus_tasks,
              ) in
              subst (All (IsOwn enabled j)) (sym old) (v.own j)
        ];
        own_read = v.own_read;
      }
      decide (inr (_, pending, _, none_put)) = record {
        each = λ x h.
            let old = v.each x h in
            record {
              deadline = deadlines x old;
              queue = subst (Listed x.bus) (sym none_put) old.queue;
              pending = old.pending;
              has = elim (Bool-cases (str_eq sensor.id x.id)) [
                | inl here ↦
                    subst
                      (λ y.
                        (st : SensorStatus) × (lookup y t.shared.stats.sensors ≡ some st)
                        × (st.pending ≡ old.pending))
                      ((eq_iff sensor.id x.id).0 here)
                      (
                        e.status,
                        e.found,
                        ground (
                          arith,
                          pending,
                          was.has.1,
                          old.has.1,
                          old.has.2,
                          eq_iff sensor.id x.id,
                          here,
                        ),
                      )
                | inr other ↦ (old.has.0, e.others x.id other ∙ old.has.1, old.has.2)
              ];
              balanced = ground (arith, ap (tasks_at x.bus) none_put, old.balanced);
            };
        own = λ j. subst (λ d. All (IsOwn enabled j) (tasks_at j d)) (sym none_put) (v.own j);
        own_read = v.own_read;
      }

  due_visit :
      (interval : ℕ)
      → lookup sensor.id (intervals_of enabled []) ≡ some interval
      → 1 ≤ interval
      → ltb now was.deadline.0 ≡ false
      → Visited sensor now was.has.0 was.queue.0 was.deadline.0 interval
          (scheduler_of W s)
          (visit (intervals_of enabled []) now sensor (scheduler_of W s))
  due_visit interval every some_time due =
      visit-Visited sensor now was.has.0 was.queue.0 (intervals_of enabled []) was.deadline.0
        interval (scheduler_of W s) was.deadline.1 every was.has.1 was.queue.1 some_time
        (ground (arith, due))

  interval_of : All Positive enabled → HasInterval (intervals_of enabled []) sensor.id
  interval_of positive =
      All-at (λ (x : SensorConfig). HasInterval (intervals_of enabled []) x.id) enabled sensor
        (intervals_of_all enabled [] positive) m

  pub visit-Safe :
      All Positive enabled
      → Safe enabled
          (with_scheduler W s (visit (intervals_of enabled []) now sensor (scheduler_of W s)).1)
  unfolding visit
  visit-Safe positive = elim (Bool-cases (ltb now was.deadline.0)) [
    | inl early ↦ rw (was.deadline.1, early) v
    | inr due ↦
        let (interval, every, some_time) = interval_of positive in
        due-Safe was.deadline.0 interval
          (visit (intervals_of enabled []) now sensor (scheduler_of W s))
          (due_visit interval every some_time due)
  ]

  -- The queues of a state: as they were, or the bus of the sensor has one more task.
  abbrev pub KeepsOrPuts : Dict (List (Option ReadTask)) → Type 0
  KeepsOrPuts d =
      (d ≡ s.bus_tasks) ⊎ (d ≡ insert sensor.bus (was.queue.0 ++ task_of sensor ∷ []) s.bus_tasks)

  Decided-KeepsOrPuts :
      (periods : ℕ) (status : SensorStatus) (d : Dict (List (Option ReadTask)))
      → Decided sensor now was.has.0 was.queue.0 periods status s.bus_tasks d
      → KeepsOrPuts d
  Decided-KeepsOrPuts periods status d (inl (_, _, _, _, put)) = inr put
  Decided-KeepsOrPuts periods status d (inr (_, _, _, none_put)) = inl none_put

  pub visit-KeepsOrPuts :
      All Positive enabled
      → KeepsOrPuts (visit (intervals_of enabled []) now sensor (scheduler_of W s)).1.bus_tasks
  unfolding visit
  visit-KeepsOrPuts positive = elim (Bool-cases (ltb now was.deadline.0)) [
    | inl early ↦ rw (was.deadline.1, early) (inl refl)
    | inr due ↦
        let (interval, every, some_time) = interval_of positive in
        let e = due_visit interval every some_time due in
        Decided-KeepsOrPuts e.periods e.status _ e.decided
  ]
