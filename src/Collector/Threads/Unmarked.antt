-- ===== src/Collector/Threads/Unmarked.antt =====
-- Before the `finally` of src/collector.py no queue has an end mark.
use sensorctl.Prelude.{
  ◌≡◌, refl, sym, ap, ◌∙◌, subst, inl, inr, arith, String, Bool-cases, false, Option, none, some,
  List, [], ◌∷◌, ◌++◌, map, str_eq, All,
}
use sensorctl.Prelude.Dict.{Dict, lookup, insert, lookup-insert}
use sensorctl.Config.Sensor.{SensorConfig}
use sensorctl.Hardware.Registry.Unique.{Distinct}
use sensorctl.Runtime.Worker.{ReadTask, Bus}
use sensorctl.Collector.Schedule.Lookups.{Positive}
use sensorctl.Collector.Schedule.Visits.{task_of}
use sensorctl.Collector.Threads.{
  SystemState, Step, visits, connects, takes, performs, times_out, ends, stops, signals, finishes,
  closes, gets, commits, Reach, here, later,
}
use sensorctl.Collector.Threads.Safe.{Safe}
use sensorctl.Collector.Threads.Visits.{was, visit-KeepsOrPuts}
use sensorctl.Collector.Threads.Reached.{Step-Safe}

-- The items are tasks only.
abbrev pub AreTasks : List (Option ReadTask) → Type 0
AreTasks items = (tasks : List ReadTask) × (items ≡ map some tasks)

abbrev pub AllTasks : Dict (List (Option ReadTask)) → Type 0
AllTasks d =
    (k : String) (items : List (Option ReadTask)) → lookup k d ≡ some items → AreTasks items

abbrev pub Unmarked : {W : Type 0} → SystemState W → Type 0
Unmarked s = s.in_finally ≡ false → AllTasks s.bus_tasks

add_task :
    (items : List (Option ReadTask)) (task : ReadTask)
    → AreTasks items
    → AreTasks (items ++ some task ∷ [])
add_task items task (tasks, e) =
    (tasks ++ task ∷ [], ap (λ l. l ++ some task ∷ []) e ∙ one_more tasks)
  where
    one_more :
        (tasks : List ReadTask) → map some tasks ++ some task ∷ [] ≡ map some (tasks ++ task ∷ [])
    one_more [] = refl
    one_more (t ∷ tasks) = ap (λ l. some t ∷ l) (one_more tasks)

rest_of_tasks :
    (item : Option ReadTask) (rest : List (Option ReadTask))
    → AreTasks (item ∷ rest)
    → AreTasks rest
rest_of_tasks item rest ([], e) = cc
rest_of_tasks item rest (t ∷ tasks, e) = (tasks, cc)

insert-AllTasks :
    (k : String) (items : List (Option ReadTask)) (d : Dict (List (Option ReadTask)))
    → AreTasks items
    → AllTasks d
    → AllTasks (insert k items d)
insert-AllTasks k items d new h j l found = elim (Bool-cases (str_eq k j)) [
  | inl same ↦
      let e : items ≡ l = ground (arith, lookup-insert k j items d, same, found) in
      subst AreTasks e new
  | inr other ↦ h j l (ground (arith, lookup-insert k j items d, other, found))
]

module _ {W : Type 0} (workers : Dict (Bus W)) (enabled : List SensorConfig)
    (distinct : Distinct enabled) (positive : All Positive enabled) where
  Step-Unmarked :
      {s t : SystemState W} → Step W workers enabled s t → Safe enabled s → Unmarked s → Unmarked t
  Step-Unmarked {s} (visits sensor now before m) v h = λ _.
      elim (visit-KeepsOrPuts enabled distinct s v sensor m now positive) [
        | inl same ↦ subst AllTasks (sym same) (h before)
        | inr put ↦
            let old = was enabled distinct s v sensor m now in
            subst AllTasks (sym put) (
              insert-AllTasks sensor.bus (old.queue.0 ++ task_of sensor ∷ []) s.bus_tasks
                (add_task old.queue.0 (record { sensor = sensor })
                  (h before sensor.bus old.queue.0 old.queue.1))
                (h before))
      ]
  Step-Unmarked {s} (takes bus_id c task rest _ _ front) v h = λ before.
      insert-AllTasks bus_id rest s.bus_tasks
        (rest_of_tasks (some task) rest (h before bus_id (some task ∷ rest) front)) (h before)
  Step-Unmarked {s} (ends bus_id c rest _ _ front) v h = λ before.
      insert-AllTasks bus_id rest s.bus_tasks
        (rest_of_tasks none rest (h before bus_id (none ∷ rest) front)) (h before)
  Step-Unmarked (connects _ _ _ _) v h = h
  Step-Unmarked (performs _ _ _ _ _) v h = h
  Step-Unmarked (times_out _ _ _ _ _) v h = h
  Step-Unmarked (stops _ _ _ _ _ _) v h = h
  Step-Unmarked signals v h = h
  Step-Unmarked (finishes _) v h = λ never. cc
  Step-Unmarked (closes _) v h = h
  Step-Unmarked gets v h = h
  Step-Unmarked (commits _ _) v h = h

  pub Reach-Unmarked :
      {s t : SystemState W}
      → Safe enabled s
      → Unmarked s
      → Reach W workers enabled s t
      → Safe enabled t × Unmarked t
  Reach-Unmarked v h here = (v, h)
  Reach-Unmarked v h (later r step) =
      let (v1, h1) = Reach-Unmarked v h r in
      (Step-Safe workers enabled distinct positive step v1, Step-Unmarked step v1 h1)
