-- ===== src/Collector/Schedule/Passes.antt =====
-- One pass of the scheduler of src/collector.py over all enabled sensors.
use sensorctl.Prelude.{
  ℕ, ◌+◌, ◌*◌, ◌≤◌, ◌≡◌, refl, ap, sym, subst, ◌∙◌, inl, inr, String, Bool, true, false, ◌&&◌,
  Option, none, some, List, [], ◌∷◌, ◌++◌, arith, ltb, Bool-cases, eq_refl, eq_iff, str_eq, All,
  All-imp, Exception, Result, ok, err, runtime_error,
}
use sensorctl.Prelude.Dict.{Dict, lookup, lookup-insert}
use sensorctl.Prelude.Exec.{lift, ◌>>◌, >>=-cases}
use sensorctl.Config.Sensor.{SensorConfig}
use sensorctl.Config.Load.Topology.{is_ok}
use sensorctl.Collector.Schedule.{
  Scheduler, visit, visit_all, intervals_of, first_error, raise_if, Tick, one_pass,
}
use sensorctl.Collector.Schedule.Visits.{Visited, Decided, visit-Visited, task_of}
use sensorctl.Prelude.Dict.{Listed, Listed-insert}
use sensorctl.Collector.Schedule.Lookups.{Ready, Ahead, HasInterval, Positive, intervals_of_all}

module _ (intervals : Dict ℕ) (now : ℕ) where
  record Passed (sensors : List SensorConfig) (s : Scheduler)
      (result : Result (Unit {0}) × Scheduler) : Type 0 where
    returns : result.0 ≡ ok tt
    ahead : All (Ahead now result.1) sensors
    keeps_ahead : (x : SensorConfig) → Ahead now s x → Ahead now result.1 x
    keeps_ready : (x : SensorConfig) → Ready s x → Ready result.1 x

  due_lem :
      (sensor : SensorConfig) (s : Scheduler) (deadline : ℕ)
      → Ready s sensor
      → HasInterval intervals sensor.id
      → lookup sensor.id s.deadlines ≡ some deadline
      → deadline ≤ now
      → Passed (sensor ∷ []) s (visit intervals now sensor s)
  due_lem sensor s deadline r (interval, every, positive) due late = record {
    returns = v.returns;
    ahead = (ahead, tt);
    keeps_ahead = λ x h. elim (Bool-cases (str_eq sensor.id x.id)) [
      | inl same ↦ (
        next,
        ground (arith, v.rescheduled, lookup-insert sensor.id x.id next s.deadlines, same),
        v.ahead,
      )
      | inr other ↦ (
        h.0,
        ground (arith, v.rescheduled, lookup-insert sensor.id x.id next s.deadlines, other, h.1),
        h.2,
      )
    ];
    keeps_ready = λ x h. record {
      deadline =
          subst (Listed x.id) (sym v.rescheduled)
            (Listed-insert sensor.id x.id next s.deadlines h.deadline);
      status = elim (Bool-cases (str_eq sensor.id x.id)) [
        | inl same ↦ (
          v.status,
          ap (λ (k : String). lookup k after.stats.sensors) (sym ((eq_iff sensor.id x.id).0 same))
              ∙ v.found,
        )
        | inr other ↦ (h.status.0, v.others x.id other ∙ h.status.1)
      ];
      queue = queues x h.queue v.decided;
    };
  }
    where
      after : Scheduler
      after = (visit intervals now sensor s).1

      v : Visited sensor now r.status.0 r.queue.0 deadline interval s (visit intervals now sensor s)
      v =
          visit-Visited sensor now r.status.0 r.queue.0 intervals deadline interval s due every
            r.status.1 r.queue.1 positive late

      next : ℕ
      next = deadline + v.periods * interval

      ahead : Ahead now after sensor
      ahead = (
        next,
        ground (
          arith,
          v.rescheduled,
          lookup-insert sensor.id sensor.id next s.deadlines,
          eq_refl sensor.id,
        ),
        v.ahead,
      )

      queues :
          (x : SensorConfig)
          → Listed x.bus s.bus_tasks
          → Decided sensor now r.status.0 r.queue.0 v.periods v.status s.bus_tasks after.bus_tasks
          → Listed x.bus after.bus_tasks
      queues x h (inl (_, _, _, _, e)) =
          subst (Listed x.bus) (sym e)
            (Listed-insert sensor.bus x.bus (r.queue.0 ++ task_of sensor ∷ []) s.bus_tasks h)
      queues x h (inr (_, _, _, e)) = subst (Listed x.bus) (sym e) h

  visit_lem :
      (sensor : SensorConfig) (s : Scheduler)
      → Ready s sensor
      → HasInterval intervals sensor.id
      → Passed (sensor ∷ []) s (visit intervals now sensor s)
  unfolding visit
  visit_lem sensor s r every = elim (Bool-cases (ltb now r.deadline.0)) [
    | inl early ↦
        rw (r.deadline.1, early)
          (record {
            returns = refl;
            ahead = ((r.deadline.0, r.deadline.1, ground (arith, early)), tt);
            keeps_ahead = λ x h. h;
            keeps_ready = λ x h. h;
          })
    | inr due ↦ due_lem sensor s r.deadline.0 r every r.deadline.1 (ground (arith, due))
  ]

  visit_all_lem :
      (sensors : List SensorConfig) (s : Scheduler)
      → All (Ready s) sensors
      → All (λ (x : SensorConfig). HasInterval intervals x.id) sensors
      → Passed sensors s (visit_all intervals now sensors s)
  unfolding visit_all
  visit_all_lem [] s r every = record {
    returns = refl;
    ahead = tt;
    keeps_ahead = λ x h. h;
    keeps_ready = λ x h. h;
  }
  visit_all_lem (sensor ∷ sensors) s r every =
      let first = visit_lem sensor s r.0 every.0 in
      let s1 = (visit intervals now sensor s).1 in
      let rest =
        visit_all_lem sensors s1 (All-imp (Ready s) (Ready s1) sensors first.keeps_ready r.1)
          every.1 in
      >>=-cases (Passed (sensor ∷ sensors) s) (visit intervals now sensor) _ s
        (λ _ _. record {
          returns = rest.returns;
          ahead = (rest.keeps_ahead sensor first.ahead.0, rest.ahead);
          keeps_ahead = λ x h. rest.keeps_ahead x (first.keeps_ahead x h);
          keeps_ready = λ x h. rest.keeps_ready x (first.keeps_ready x h);
        })
        (λ e raised. cc (first.returns))

abbrev pub is_none {ℓ} : {A : Type ℓ} → Option A → Bool
is_none none = true
is_none (some a) = false

-- Nothing but `RuntimeError` is raised.
abbrev pub RaisesRuntime : Result (Unit {0}) → Type 0
RaisesRuntime (ok u) = Unit
RaisesRuntime (err e) = e.kind ≡ runtime_error

watch :
    (w o : Option Exception) (s : Scheduler)
    → (r : Result (Unit {0})) × ((lift (raise_if w "database writer stopped")
            >> lift (raise_if o "bus worker stopped"))
          s
        ≡ (r, s))
      × (is_ok r ≡ (is_none w && is_none o))
      × RaisesRuntime r
watch (some e) o s = (raise_if (some e) "database writer stopped", refl, refl, refl)
watch none (some e) s = (raise_if (some e) "bus worker stopped", refl, refl, refl)
watch none none s = (ok tt, refl, refl, tt)

-- How the pass leaves the scheduler, and whether it returns.
pub record Planned (enabled : List SensorConfig) (t : Tick) (result : Result (Unit {0}) × Scheduler)
    : Type 0 where
  pub ahead : All (Ahead t.now result.1) enabled
  pub ready : All (Ready result.1) enabled
  pub watches : is_ok result.0 ≡ (is_none t.writer_error && is_none (first_error t.worker_errors))
  pub raises : RaisesRuntime result.0

-- After a pass at any time every enabled sensor's deadline is in the future, and the next pass finds
-- what it needs; the pass raises exactly if the writer or a worker has an error, and then
-- `RuntimeError`. It needs an interval of at least 1, an entry and a deadline for each sensor, and a
-- queue for each of their buses.
pub one_pass-Planned :
    (enabled : List SensorConfig) (t : Tick) (s : Scheduler)
    → All Positive enabled
    → All (Ready s) enabled
    → Planned enabled t (one_pass enabled t s)
unfolding one_pass
one_pass-Planned enabled t s positive ready =
    >>=-cases (Planned enabled t) (visit_all intervals t.now enabled) _ s
      (λ _ _.
        let (r, e, h, only) = watch t.writer_error (first_error t.worker_errors) after in
        subst (Planned enabled t) (sym e) (planned r h only))
      (λ e raised. cc (p.returns))
  where
    intervals : Dict ℕ
    intervals = intervals_of enabled []

    p : Passed intervals t.now enabled s (visit_all intervals t.now enabled s)
    p = visit_all_lem intervals t.now enabled s ready (intervals_of_all enabled [] positive)

    after : Scheduler
    after = (visit_all intervals t.now enabled s).1

    all_ready : All (Ready after) enabled
    all_ready = All-imp (Ready s) (Ready after) enabled p.keeps_ready ready

    planned :
        (r : Result (Unit {0}))
        → is_ok r ≡ (is_none t.writer_error && is_none (first_error t.worker_errors))
        → RaisesRuntime r
        → Planned enabled t (r, after)
    planned r h only = record { ahead = p.ahead; ready = all_ready; watches = h; raises = only }
