-- ===== src/Collector/Schedule/Visits.antt =====
-- One visit of the scheduler of src/collector.py to a sensor: its deadline and what is counted.
use sensorctl.Prelude.{
  ℕ, ◌+◌, ◌-◌, ◌*◌, ◌≤◌, ◌<◌, ◌≡◌, refl, subst, ◌∙◌, ◌⊎◌, inl, inr, true, false, not, Option, some,
  List, [], ◌∷◌, ◌++◌, arith, ltb, leb, if-cases, if◌then◌else◌, Result, ok,
}
use sensorctl.Prelude.Dict.{Dict, lookup, insert}
use sensorctl.Prelude.Exec.{Exec, pure, ◌>>◌}
use sensorctl.Config.Sensor.{SensorConfig}
use sensorctl.Runtime.Status.{SensorStatus, store, missed}
use sensorctl.Runtime.Status.Methods.{
  after_dispatch, after_missed, can_run_found, dispatch_found, missed_found, lookup-store_self,
  lookup-store_ne,
}
use sensorctl.Runtime.Worker.{ReadTask}
use sensorctl.Runtime.Worker.Submit.{OthersStay}
use sensorctl.Collector.Schedule.{
  Scheduler, on_stats, put_task, periods_since, start_read, reschedule, visit,
}

abbrev pub task_of : SensorConfig → Option ReadTask
task_of sensor = some (record { sensor = sensor })

module _ (sensor : SensorConfig) (now : ℕ) (st : SensorStatus)
    (tasks : List (Option ReadTask)) where
  -- The sensor gets a task at the end of its bus's queue, or why it does not; with the number of
  -- periods that are counted as missed.
  abbrev pub Decided :
      ℕ → SensorStatus → Dict (List (Option ReadTask)) → Dict (List (Option ReadTask)) → Type 0
  Decided periods status before after =
      ((st.pending ≡ false)
        × (st.backoff_until_ms ≤ now)
        × (status.pending ≡ true)
        × (status.missed_deadlines + 1 ≡ st.missed_deadlines + periods)
        × (after ≡ insert sensor.bus (tasks ++ task_of sensor ∷ []) before))
      ⊎ (((st.pending ≡ true) ⊎ (now < st.backoff_until_ms))
          × (status.pending ≡ st.pending)
          × (status.missed_deadlines ≡ st.missed_deadlines + periods)
          × (after ≡ before))

  record Counted (periods : ℕ) (s : Scheduler) (result : Result (Unit {0}) × Scheduler)
      : Type 0 where
    returns : result.0 ≡ ok tt
    status : SensorStatus
    found : lookup sensor.id result.1.stats.sensors ≡ some status
    decided : Decided periods status s.bus_tasks result.1.bus_tasks
    others : OthersStay sensor.id s.stats result.1.stats
    deadlines_same : result.1.deadlines ≡ s.deadlines

  -- A status that differs in the count of missed periods.
  record Later (n : ℕ) (st1 : SensorStatus) : Type 0 where
    pending_same : st1.pending ≡ st.pending
    backoff_same : st1.backoff_until_ms ≡ st.backoff_until_ms
    count : st1.missed_deadlines ≡ st.missed_deadlines + n

  start_read_lem :
      (n : ℕ) (st1 : SensorStatus) (s : Scheduler)
      → Later n st1
      → lookup sensor.id s.stats.sensors ≡ some st1
      → lookup sensor.bus s.bus_tasks ≡ some tasks
      → Counted (n + 1) s (start_read sensor now s)
  unfolding start_read put_task
  start_read_lem n st1 s later known queue = rw (can_run_found sensor.id s.stats known now) (
      if-cases {A = Exec Scheduler (Unit {0})} (λ m. Counted (n + 1) s (m s))
        (not (leb st1.backoff_until_ms now)) _ _
        (λ held. rw (missed_found sensor.id s.stats known 1) (
          passed_over (after_missed 1 st1) (inr (ground (arith, held, later.backoff_same)))
            later.pending_same (omega (arith, later.count))))
        (λ free. rw (dispatch_found sensor.id s.stats known) (
          if-cases {A = Exec Scheduler (Unit {0})}
            (λ m.
              Counted (n + 1) s
                (m (record s { stats = store sensor.id (after_dispatch st1) s.stats })))
            (not st1.pending) _ _ (λ idle. rw queue (sent idle free))
            (λ busy.
              passed_over (after_dispatch st1) (inl (ground (arith, busy, later.pending_same)))
                (ground (arith, busy, later.pending_same)) (ground (arith, busy, later.count))))))
    where
      passed_over :
          (status : SensorStatus)
          → ((st.pending ≡ true) ⊎ (now < st.backoff_until_ms))
          → status.pending ≡ st.pending
          → status.missed_deadlines ≡ st.missed_deadlines + (n + 1)
          → Counted (n + 1) s (ok tt, record s { stats = store sensor.id status s.stats })
      passed_over status reason pending_same count = record {
        returns = refl;
        status = status;
        found = lookup-store_self sensor.id status s.stats;
        decided = inr (reason, pending_same, count, refl);
        others = λ j h. lookup-store_ne sensor.id j status s.stats h;
        deadlines_same = refl;
      }

      sent :
          not st1.pending ≡ true
          → not (leb st1.backoff_until_ms now) ≡ false
          → Counted (n + 1) s (
            ok tt,
            record s {
              stats = store sensor.id (after_dispatch st1) s.stats;
              bus_tasks = insert sensor.bus (tasks ++ task_of sensor ∷ []) s.bus_tasks;
            },
          )
      sent idle free = record {
        returns = refl;
        status = after_dispatch st1;
        found = lookup-store_self sensor.id (after_dispatch st1) s.stats;
        decided = inl (
          ground (arith, idle, later.pending_same),
          ground (arith, free, later.backoff_same),
          ground (arith, idle),
          ground (arith, idle, later.count),
          refl,
        );
        others = λ j h. lookup-store_ne sensor.id j (after_dispatch st1) s.stats h;
        deadlines_same = refl;
      }

  missed_lem :
      (periods : ℕ) (s : Scheduler)
      → 1 ≤ periods
      → lookup sensor.id s.stats.sensors ≡ some st
      → lookup sensor.bus s.bus_tasks ≡ some tasks
      → Counted periods s (
          ((if ltb 1 periods then on_stats (missed sensor.id (periods - 1)) else pure tt)
              >> start_read sensor now)
            s)
  missed_lem periods s positive known queue =
      if-cases {A = Exec Scheduler (Unit {0})}
        (λ m. Counted periods s ((m >> start_read sensor now) s)) (ltb 1 periods) _ _
        (λ many. rw (missed_found sensor.id s.stats known (periods - 1)) carried)
        (λ one.
          subst (λ n. Counted n s (start_read sensor now s)) (ground (arith, one, positive))
            (start_read_lem 0 st s
              (record { pending_same = refl; backoff_same = refl; count = omega arith }) known
              queue))
    where
      st1 : SensorStatus
      st1 = after_missed (periods - 1) st

      s1 : Scheduler
      s1 = record s { stats = store sensor.id st1 s.stats }

      c : Counted (periods - 1 + 1) s1 (start_read sensor now s1)
      c =
          start_read_lem (periods - 1) st1 s1
            (record { pending_same = refl; backoff_same = refl; count = refl })
            (lookup-store_self sensor.id st1 s.stats) queue

      carried : Counted periods s (start_read sensor now s1)
      carried =
          subst (λ n. Counted n s (start_read sensor now s1)) (omega (arith, positive))
            (record {
              returns = c.returns;
              status = c.status;
              found = c.found;
              decided = c.decided;
              others = λ j h. c.others j h ∙ lookup-store_ne sensor.id j st1 s.stats h;
              deadlines_same = c.deadlines_same;
            })

  -- A visit at or after the deadline.
  pub record Visited (deadline interval : ℕ) (s : Scheduler)
      (result : Result (Unit {0}) × Scheduler) : Type 0 where
    pub returns : result.0 ≡ ok tt
    pub periods : ℕ
    pub some_period : 1 ≤ periods
    pub rescheduled :
        result.1.deadlines ≡ insert sensor.id (deadline + periods * interval) s.deadlines
    pub ahead : now < deadline + periods * interval
    pub no_later : deadline + periods * interval ≤ now + interval
    pub status : SensorStatus
    pub found : lookup sensor.id result.1.stats.sensors ≡ some status
    pub decided : Decided periods status s.bus_tasks result.1.bus_tasks
    pub others : OthersStay sensor.id s.stats result.1.stats

  -- A sensor whose deadline has come is scheduled for the next point of its grid of intervals, which is
  -- after now and at most one interval away; and every period since the old deadline is counted once:
  -- all of them as missed if a task is outstanding or the back-off runs, and otherwise all but one,
  -- which becomes a task at the end of its bus's queue. Other sensors' entries stay.
  pub visit-Visited :
      (intervals : Dict ℕ) (deadline interval : ℕ) (s : Scheduler)
      → lookup sensor.id s.deadlines ≡ some deadline
      → lookup sensor.id intervals ≡ some interval
      → lookup sensor.id s.stats.sensors ≡ some st
      → lookup sensor.bus s.bus_tasks ≡ some tasks
      → 1 ≤ interval
      → deadline ≤ now
      → Visited deadline interval s (visit intervals now sensor s)
  unfolding visit reschedule
  visit-Visited intervals deadline interval s due every known queue positive late = rw due (
      if-cases {A = Exec Scheduler (Unit {0})} (λ m. Visited deadline interval s (m s))
        (ltb now deadline) _ _ (λ early. absurd (ground (arith, early, late)))
        (λ _. rw every visited))
    where
      periods : ℕ
      periods = periods_since deadline now interval

      s1 : Scheduler
      s1 = record s { deadlines = insert sensor.id (deadline + periods * interval) s.deadlines }

      c : Counted periods s1 (
          ((if ltb 1 periods then on_stats (missed sensor.id (periods - 1)) else pure tt)
              >> start_read sensor now)
            s1)
      c = missed_lem periods s1 (omega arith) known queue

      visited : Visited deadline interval s (reschedule sensor now deadline interval s)
      visited = record {
        returns = c.returns;
        periods = periods;
        some_period = omega arith;
        rescheduled = c.deadlines_same;
        ahead = omega (arith, positive, late);
        no_later = omega (arith, positive, late);
        status = c.status;
        found = c.found;
        decided = c.decided;
        others = c.others;
      }
