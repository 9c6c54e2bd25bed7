-- ===== src/Collector/Threads/Draining.antt =====
-- A worker of src/runtime/worker.py from the `finally` of src/collector.py on: it takes the tasks that
-- are left and then the end mark.
use sensorctl.Prelude.{
  ◌≡◌, refl, sym, ap, ◌∙◌, subst, ◌⊎◌, inl, inr, arith, String, Bool, Bool-cases, true, false,
  Option, none, some, List, [], ◌∷◌, ◌++◌, map, str_eq, eq_iff,
}
use sensorctl.Prelude.Dict.{Dict, lookup, insert, lookup-insert}
use sensorctl.Config.Sensor.{SensorConfig}
use sensorctl.Runtime.Queue.{Shared}
use sensorctl.Runtime.Worker.{ReadTask, Bus}
use sensorctl.Collector.Threads.{
  Phase, opens, waits, reads, leaves, SystemState, Station, place, Step, visits, connects, takes,
  performs, times_out, ends, stops, signals, finishes, closes, gets, commits,
}

-- The worker is in its loop.
abbrev pub in_loop : Phase → Bool
in_loop opens = false
in_loop waits = true
in_loop (reads task) = true
in_loop leaves = false

-- The worker is in its loop and the end mark is the last item of its queue, or it took the mark and
-- nothing is left.
abbrev pub Drains : Option (List (Option ReadTask)) → Phase → Type 0
Drains queue phase =
    ((tasks : List ReadTask) × (queue ≡ some (map some tasks ++ none ∷ []))
      × (in_loop phase ≡ true))
    ⊎ ((queue ≡ some []) × (phase ≡ leaves))

-- A `get` of the first item leaves a queue of this kind, and a worker in its loop after a task.
take_task :
    (queue : Option (List (Option ReadTask))) (task : ReadTask) (rest : List (Option ReadTask))
    → queue ≡ some (some task ∷ rest)
    → Drains queue waits
    → Drains (some rest) (reads task)
take_task queue task rest front (inl ([], e, busy)) = cc
take_task queue task rest front (inl (t ∷ tasks, e, busy)) = inl (tasks, cc, refl)
take_task queue task rest front (inr (e, left)) = cc

take_mark :
    (queue : Option (List (Option ReadTask))) (rest : List (Option ReadTask))
    → queue ≡ some (none ∷ rest)
    → Drains queue waits
    → Drains (some rest) leaves
take_mark queue rest front (inl ([], e, busy)) = inr (cc, refl)
take_mark queue rest front (inl (t ∷ tasks, e, busy)) = cc
take_mark queue rest front (inr (e, left)) = cc

not_empty : (queue : Option (List (Option ReadTask))) → queue ≡ some [] → Drains queue waits → ⊥
not_empty queue none_left (inl ([], e, busy)) = cc
not_empty queue none_left (inl (t ∷ tasks, e, busy)) = cc
not_empty queue none_left (inr (e, left)) = cc

not_opening : (queue : Option (List (Option ReadTask))) → Drains queue opens → ⊥
not_opening queue (inl (tasks, e, busy)) = cc
not_opening queue (inr (e, left)) = cc

task_finished :
    (queue : Option (List (Option ReadTask))) (task : ReadTask)
    → Drains queue (reads task)
    → Drains queue waits
task_finished queue task (inl (tasks, e, busy)) = inl (tasks, e, refl)
task_finished queue task (inr (e, left)) = cc

at_key :
    (k j : String) (l : List (Option ReadTask)) (q : Dict (List (Option ReadTask)))
    → j ≡ k
    → lookup k (insert j l q) ≡ some l
at_key k j l q same = ground (arith, lookup-insert j k l q, eq_iff j k, same)

module _ {W : Type 0} (k : String) where
  pub record Draining (s : SystemState W) : Type 0 where
    pub over : s.in_finally ≡ true
    pub drains : Drains (lookup k s.bus_tasks) (s.stations k).phase

  -- The worker of a bus goes on, and its queue is another; other buses stay.
  goes_on :
      (s : SystemState W) (shared : Shared) (j : String) (station : Station W)
      (bus_tasks : Dict (List (Option ReadTask)))
      → (str_eq j k ≡ false → lookup k bus_tasks ≡ lookup k s.bus_tasks)
      → (j ≡ k
          → Drains (lookup k s.bus_tasks) (s.stations k).phase
          → Drains (lookup k bus_tasks) station.phase)
      → Draining s
      → Draining (record s {
        shared = shared;
        bus_tasks = bus_tasks;
        stations = place W j station s.stations;
      })
  goes_on s shared j station bus_tasks elsewhere at_k d = record {
    over = d.over;
    drains = elim (Bool-cases (str_eq j k)) [
      | inl same ↦ rw same (at_k ((eq_iff j k).0 same) d.drains)
      | inr other ↦
          rw other
            (subst (λ queue. Drains queue (s.stations k).phase) (sym (elsewhere other)) d.drains)
    ];
  }

  at_queue :
      (s : SystemState W) (j : String) (l : List (Option ReadTask))
      → j ≡ k
      → lookup j s.bus_tasks ≡ some l
      → lookup k s.bus_tasks ≡ some l
  at_queue s j l same h = ap (λ i. lookup i s.bus_tasks) (sym same) ∙ h

  at_phase :
      (s : SystemState W) (j : String) (phase : Phase)
      → j ≡ k
      → (s.stations j).phase ≡ phase
      → Drains (lookup k s.bus_tasks) (s.stations k).phase
      → Drains (lookup k s.bus_tasks) phase
  at_phase s j phase same h was =
      subst (Drains (lookup k s.bus_tasks)) (ap (λ i. (s.stations i).phase) (sym same) ∙ h) was

  module _ (workers : Dict (Bus W)) (enabled : List SensorConfig) where
    pub Step-Draining : {s t : SystemState W} → Step W workers enabled s t → Draining s → Draining t
    Step-Draining {s} (visits sensor now before m) d = cc (before, d.over)
    Step-Draining {s} (connects j c _ opening) d =
        goes_on s _ j _ s.bus_tasks (λ _. refl)
          (λ same was. absurd (not_opening _ (at_phase s j opens same opening was))) d
    Step-Draining {s} (takes j c task rest _ waiting front) d =
        goes_on s _ j _ (insert j rest s.bus_tasks)
          (λ other. ground (arith, lookup-insert j k rest s.bus_tasks, other))
          (λ same was.
            subst (λ queue. Drains queue (reads task)) (sym (at_key k j rest s.bus_tasks same))
              (take_task _ task rest (at_queue s j (some task ∷ rest) same front)
                (at_phase s j waits same waiting was)))
          d
    Step-Draining {s} (performs j c task _ reading) d =
        goes_on s _ j _ s.bus_tasks (λ _. refl)
          (λ same was. task_finished _ task (at_phase s j (reads task) same reading was)) d
    Step-Draining {s} (times_out j c _ waiting none_left) d =
        goes_on s _ j _ s.bus_tasks (λ _. refl)
          (λ same was.
            absurd
              (not_empty _ (at_queue s j [] same none_left) (at_phase s j waits same waiting was)))
          d
    Step-Draining {s} (ends j c rest _ waiting front) d =
        goes_on s _ j _ (insert j rest s.bus_tasks)
          (λ other. ground (arith, lookup-insert j k rest s.bus_tasks, other))
          (λ same was.
            subst (λ queue. Drains queue leaves) (sym (at_key k j rest s.bus_tasks same))
              (take_mark _ rest (at_queue s j (none ∷ rest) same front)
                (at_phase s j waits same waiting was)))
          d
    Step-Draining {s} (stops j c _ waiting _ none_left) d =
        goes_on s _ j _ s.bus_tasks (λ _. refl)
          (λ same was.
            absurd
              (not_empty _ (at_queue s j [] same none_left) (at_phase s j waits same waiting was)))
          d
    Step-Draining {s} signals d = record { over = d.over; drains = d.drains }
    Step-Draining {s} (finishes before) d = cc (before, d.over)
    Step-Draining {s} (closes _) d = record { over = d.over; drains = d.drains }
    Step-Draining {s} gets d = record { over = d.over; drains = d.drains }
    Step-Draining {s} (commits samples at) d = record { over = d.over; drains = d.drains }
