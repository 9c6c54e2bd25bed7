-- ===== src/Collector/Threads/Bounded.antt =====
-- How many tasks the queue of a bus can hold in src/collector.py: the queues themselves have no limit.
use sensorctl.Prelude.{
  ℕ, ◌+◌, ◌≤◌, ◌≡◌, refl, inl, inr, arith, String, Bool-cases, Option, none, some, List, [], ◌∷◌,
  if◌then◌else◌, str_eq, eq_iff, ap, All, IsIn,
}
use sensorctl.Config.Sensor.{SensorConfig}
use sensorctl.Runtime.Worker.{ReadTask}
use sensorctl.Collector.Threads.{tasks_at, SystemState}
use sensorctl.Collector.Threads.Balance.{count}
use sensorctl.Collector.Threads.Safe.{IsOwn, Safe}

-- The tasks among the items, and the sensors on a bus.
abbrev pub task_count : List (Option ReadTask) → ℕ
task_count [] = 0
task_count (none ∷ items) = task_count items
task_count (some task ∷ items) = 1 + task_count items

abbrev pub on_bus : String → List SensorConfig → ℕ
on_bus bus_id [] = 0
on_bus bus_id (x ∷ xs) = (if str_eq x.bus bus_id then 1 else 0) + on_bus bus_id xs

module _ (bus_id : String) where
  -- The tasks for sensors on the bus, sensor by sensor.
  total : List (Option ReadTask) → List SensorConfig → ℕ
  total items [] = 0
  total items (x ∷ xs) = (if str_eq x.bus bus_id then count x.id items else 0) + total items xs

  total-cons :
      (item : Option ReadTask) (items : List (Option ReadTask)) (xs : List SensorConfig)
      → total (item ∷ items) xs ≡ total (item ∷ []) xs + total items xs
  unfolding total
  total-cons item items [] = refl
  total-cons item items (x ∷ xs) = ground (arith, total-cons item items xs)

  counted_once :
      (task : ReadTask) (xs : List SensorConfig)
      → IsIn task.sensor xs
      → task.sensor.bus ≡ bus_id
      → 1 ≤ total (some task ∷ []) xs
  unfolding total
  counted_once task [] m e = absurd m
  counted_once task (x ∷ xs) (inl p) e = ground (
    arith,
    e,
    ap (λ (y : SensorConfig). y.bus) p,
    ap (λ (y : SensorConfig). y.id) p,
    eq_iff x.bus bus_id,
    eq_iff task.sensor.id x.id,
  )
  counted_once task (x ∷ xs) (inr m) e = ground (arith, counted_once task xs m e)

  all_counted :
      (enabled : List SensorConfig) (items : List (Option ReadTask))
      → All (IsOwn enabled bus_id) items
      → task_count items ≤ total items enabled
  all_counted enabled [] own = omega arith
  all_counted enabled (none ∷ items) own =
      omega (arith, total-cons none items enabled, all_counted enabled items own.1)
  all_counted enabled (some task ∷ items) own = omega (
    arith,
    total-cons (some task) items enabled,
    counted_once task enabled own.0.0 own.0.1,
    all_counted enabled items own.1,
  )

  at_most_one :
      (items : List (Option ReadTask)) (xs : List SensorConfig)
      → ((x : SensorConfig) → IsIn x xs → x.bus ≡ bus_id → count x.id items ≤ 1)
      → total items xs ≤ on_bus bus_id xs
  unfolding total
  at_most_one items [] h = omega arith
  at_most_one items (x ∷ xs) h =
      let rest = at_most_one items xs (λ y m. h y (inr m)) in
      elim (Bool-cases (str_eq x.bus bus_id)) [
        | inl here ↦ ground (arith, here, rest, h x (inl refl) ((eq_iff x.bus bus_id).0 here))
        | inr other ↦ ground (arith, other, rest)
      ]

-- The queue of a bus holds at most one task for each enabled sensor of the bus.
pub Safe-bounded :
    {W : Type 0} (enabled : List SensorConfig) (s : SystemState W) (bus_id : String)
    → Safe enabled s
    → task_count (tasks_at bus_id s.bus_tasks) ≤ on_bus bus_id enabled
Safe-bounded enabled s bus_id v =
    let items = tasks_at bus_id s.bus_tasks in
    omega
      (arith, all_counted bus_id enabled items (v.own bus_id), at_most_one bus_id items enabled one)
  where
    one :
        (x : SensorConfig)
        → IsIn x enabled
        → x.bus ≡ bus_id
        → count x.id (tasks_at bus_id s.bus_tasks) ≤ 1
    one x m e = let h = v.each x m in ground (arith, h.balanced, ap (λ k. tasks_at k s.bus_tasks) e)
