-- ===== src/Collector/Threads/Moves.antt =====
-- A task that goes from the queue of a bus to its worker in src/runtime/worker.py stays outstanding.
use sensorctl.Prelude.{
  ◌+◌, ◌≡◌, sym, ap, ◌∙◌, subst, inl, inr, arith, String, Bool-cases, Option, none, some, List, [],
  ◌∷◌, ◌++◌, if◌then◌else◌, str_eq, eq_iff, All,
}
use sensorctl.Prelude.Dict.{Dict, lookup, insert}
use sensorctl.Config.Sensor.{SensorConfig}
use sensorctl.Runtime.Worker.{ReadTask}
use sensorctl.Prelude.Dict.{Listed, Listed-insert}
use sensorctl.Collector.Shutdown.{put_none}
use sensorctl.Collector.Threads.{waits, reads, tasks_at, Station, SystemState, place, begin_finally}
use sensorctl.Collector.Threads.Balance.{
  is_for, count, at_worker, outstanding, tasks_at-insert, count-put_none, Listed-put_none,
}
use sensorctl.Collector.Threads.Safe.{IsOwn, Safe}

module _ {W : Type 0} (enabled : List SensorConfig) (s : SystemState W) (v : Safe enabled s) where
  -- The queue and the worker of one bus change, and what is outstanding there stays.
  pub record Moved (bus_id : String) (tasks : List (Option ReadTask)) (station : Station W)
      (bus_tasks : Dict (List (Option ReadTask))) : Type 0 where
    pub tasks_are :
        (j : String)
        → tasks_at j bus_tasks ≡ (if str_eq bus_id j then tasks else tasks_at j s.bus_tasks)
    pub listed : (j : String) → Listed j s.bus_tasks → Listed j bus_tasks
    pub same :
        (id : String)
        → count id tasks + at_worker id station.phase
          ≡ count id (tasks_at bus_id s.bus_tasks) + at_worker id (s.stations bus_id).phase
    pub own : All (IsOwn enabled bus_id) tasks
    pub own_read : (task : ReadTask) → station.phase ≡ reads task → IsOwn enabled bus_id (some task)

  pub Moved-Safe :
      (bus_id : String) (tasks : List (Option ReadTask)) (station : Station W)
      (bus_tasks : Dict (List (Option ReadTask)))
      → Moved bus_id tasks station bus_tasks
      → Safe enabled
          (record s { bus_tasks = bus_tasks; stations = place W bus_id station s.stations })
  Moved-Safe bus_id tasks station bus_tasks m = record {
    each = λ x h.
        let was = v.each x h in
        record {
          deadline = was.deadline;
          queue = m.listed x.bus was.queue;
          pending = was.pending;
          has = was.has;
          balanced = balanced x ∙ was.balanced;
        };
    own = λ j. elim (Bool-cases (str_eq bus_id j)) [
      | inl here ↦
          subst (All (IsOwn enabled j)) (sym (ground (arith, m.tasks_are j, here)))
            (subst (λ k. All (IsOwn enabled k) tasks) ((eq_iff bus_id j).0 here) m.own)
      | inr other ↦
          subst (All (IsOwn enabled j)) (sym (ground (arith, m.tasks_are j, other))) (v.own j)
    ];
    own_read = λ j task h. elim (Bool-cases (str_eq bus_id j)) [
      | inl here ↦
          subst (λ k. IsOwn enabled k (some task)) ((eq_iff bus_id j).0 here)
            (m.own_read task (ground (arith, h, here)))
      | inr other ↦ v.own_read j task (ground (arith, h, other))
    ];
  }
    where
      balanced :
          (x : SensorConfig)
          → outstanding
              (record s { bus_tasks = bus_tasks; stations = place W bus_id station s.stations })
              x
            ≡ outstanding s x
      balanced x = elim (Bool-cases (str_eq bus_id x.bus)) [
        | inl here ↦ ground (arith, m.tasks_are x.bus, here, m.same x.id, eq_iff bus_id x.bus)
        | inr other ↦ ground (arith, m.tasks_are x.bus, other)
      ]

  -- The first item of the queue is taken; a task is then at the worker.
  pub get-Safe :
      (bus_id : String) (item : Option ReadTask) (rest : List (Option ReadTask))
      (station : Station W)
      → (s.stations bus_id).phase ≡ waits
      → lookup bus_id s.bus_tasks ≡ some (item ∷ rest)
      → ((id : String) → at_worker id station.phase ≡ is_for id item)
      → ((task : ReadTask) → station.phase ≡ reads task → item ≡ some task)
      → Safe enabled (record s {
        bus_tasks = insert bus_id rest s.bus_tasks;
        stations = place W bus_id station s.stations;
      })
  get-Safe bus_id item rest station waiting front same taken =
      Moved-Safe bus_id rest station (insert bus_id rest s.bus_tasks) (record {
        tasks_are = λ j. tasks_at-insert bus_id j rest s.bus_tasks;
        listed = λ j h. Listed-insert bus_id j rest s.bus_tasks h;
        same = λ id. ground (arith, same id, front, waiting);
        own = here.1;
        own_read = λ task h. subst (IsOwn enabled bus_id) (taken task h) here.0;
      })
    where
      at_front : tasks_at bus_id s.bus_tasks ≡ item ∷ rest
      at_front = ground (arith, front)

      here : All (IsOwn enabled bus_id) (item ∷ rest)
      here = subst (All (IsOwn enabled bus_id)) at_front (v.own bus_id)

  -- The queue stays as it is, and the worker goes on with no task.
  pub idle-Safe :
      (bus_id : String) (station : Station W)
      → ((id : String) → at_worker id (s.stations bus_id).phase ≡ 0)
      → ((id : String) → at_worker id station.phase ≡ 0)
      → ((task : ReadTask) → station.phase ≡ reads task → ⊥)
      → Safe enabled (record s { stations = place W bus_id station s.stations })
  idle-Safe bus_id station none_before none_there no_task =
      Moved-Safe bus_id (tasks_at bus_id s.bus_tasks) station s.bus_tasks (record {
        tasks_are = λ j. ground (arith, eq_iff bus_id j);
        listed = λ j h. h;
        same = λ id. ground (arith, none_there id, none_before id);
        own = v.own bus_id;
        own_read = λ task h. absurd (no_task task h);
      })

  IsOwn-put_none :
      (j : String) (d : Dict (List (Option ReadTask)))
      → All (IsOwn enabled j) (tasks_at j d)
      → All (IsOwn enabled j) (tasks_at j (put_none d))
  unfolding put_none lookup
  IsOwn-put_none j [] h = h
  IsOwn-put_none j ((k, l) ∷ d) h = elim (Bool-cases (str_eq k j)) [
    | inl here ↦ rw here (IsOwn-append l (subst (All (IsOwn enabled j)) (ground (arith, here)) h))
    | inr other ↦
        rw other (IsOwn-put_none j d (subst (All (IsOwn enabled j)) (ground (arith, other)) h))
  ]
    where
      IsOwn-append :
          (l : List (Option ReadTask))
          → All (IsOwn enabled j) l
          → All (IsOwn enabled j) (l ++ none ∷ [])
      IsOwn-append [] h = (tt, tt)
      IsOwn-append (x ∷ l) h = (h.0, IsOwn-append l h.1)

  -- The end marks are no tasks.
  pub finally-Safe : Safe enabled (begin_finally W s)
  finally-Safe = record {
    each = λ x m.
        let was = v.each x m in
        record {
          deadline = was.deadline;
          queue = Listed-put_none x.bus s.bus_tasks was.queue;
          pending = was.pending;
          has = was.has;
          balanced =
              ap (λ n. n + at_worker x.id (s.stations x.bus).phase)
                (count-put_none x.id x.bus s.bus_tasks)
              ∙ was.balanced;
        };
    own = λ j. IsOwn-put_none j s.bus_tasks (v.own j);
    own_read = v.own_read;
  }
