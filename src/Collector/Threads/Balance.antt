-- ===== src/Collector/Threads/Balance.antt =====
-- The tasks that are outstanding for a sensor in src/collector.py: in its bus's queue or at its worker.
use sensorctl.Prelude.{
  ℕ, ◌+◌, ◌≡◌, refl, sym, ap, ◌∙◌, subst, inl, inr, arith, String, true, not, Option, none, some,
  List, [], ◌∷◌, ◌++◌, if◌then◌else◌, str_eq, eq_iff, all, IsIn,
}
use sensorctl.Prelude.Dict.{Dict, lookup, insert, lookup-insert}
use sensorctl.Config.Sensor.{SensorConfig}
use sensorctl.Hardware.Registry.Unique.{Distinct}
use sensorctl.Runtime.Worker.{ReadTask}
use sensorctl.Prelude.Dict.{Listed}
use sensorctl.Collector.Shutdown.{put_none}
use sensorctl.Collector.Threads.{Phase, opens, waits, reads, leaves, tasks_at, SystemState}

abbrev pub is_for : String → Option ReadTask → ℕ
is_for id none = 0
is_for id (some task) = if str_eq task.sensor.id id then 1 else 0

abbrev pub count : String → List (Option ReadTask) → ℕ
count id [] = 0
count id (item ∷ items) = is_for id item + count id items

abbrev pub at_worker : String → Phase → ℕ
at_worker id opens = 0
at_worker id waits = 0
at_worker id (reads task) = is_for id (some task)
at_worker id leaves = 0

-- The tasks for the sensor in the queue of its bus and at its worker.
abbrev pub outstanding : {W : Type 0} → SystemState W → SensorConfig → ℕ
outstanding s sensor =
    count sensor.id (tasks_at sensor.bus s.bus_tasks)
    + at_worker sensor.id ((s.stations sensor.bus).phase)

pub count-append :
    (id : String) (xs ys : List (Option ReadTask)) → count id (xs ++ ys) ≡ count id xs + count id ys
count-append id [] ys = omega arith
count-append id (x ∷ xs) ys = omega (arith, count-append id xs ys)

pub tasks_at-insert :
    (k j : String) (l : List (Option ReadTask)) (d : Dict (List (Option ReadTask)))
    → tasks_at j (insert k l d) ≡ (if str_eq k j then l else tasks_at j d)
tasks_at-insert k j l d = ground (arith, lookup-insert k j l d)

-- The end marks are no tasks.
pub count-put_none :
    (id k : String) (d : Dict (List (Option ReadTask)))
    → count id (tasks_at k (put_none d)) ≡ count id (tasks_at k d)
unfolding put_none lookup
count-put_none id k [] = refl
count-put_none id k ((j, l) ∷ d) =
    ground (arith, count-append id l (none ∷ []), count-put_none id k d)

pub lookup-put_none :
    (k : String) (d : Dict (List (Option ReadTask))) (l : List (Option ReadTask))
    → lookup k d ≡ some l
    → lookup k (put_none d) ≡ some (l ++ none ∷ [])
unfolding put_none lookup
lookup-put_none k [] l h = cc
lookup-put_none k ((j, m) ∷ d) l h = ground (arith, h, lookup-put_none k d l)

pub Listed-put_none :
    (k : String) (d : Dict (List (Option ReadTask))) → Listed k d → Listed k (put_none d)
Listed-put_none k d (l, h) = (l ++ none ∷ [], lookup-put_none k d l h)

clash :
    (z : SensorConfig) (xs : List SensorConfig) (y : SensorConfig)
    → all (λ (t : SensorConfig). not (str_eq z.id t.id)) xs ≡ true
    → IsIn y xs
    → str_eq z.id y.id ≡ true
    → ⊥
clash z [] y h m e = m
clash z (t ∷ xs) y h (inl p) e =
    absurd (ground (arith, h, e, ap (λ (w : SensorConfig). str_eq z.id w.id) p))
clash z (t ∷ xs) y h (inr m) e = clash z xs y (ground (arith, h)) m e

-- Of two sensors of the collector with one id each is the other.
pub same_sensor :
    (xs : List SensorConfig) (x y : SensorConfig)
    → Distinct xs
    → IsIn x xs
    → IsIn y xs
    → str_eq x.id y.id ≡ true
    → x ≡ y
same_sensor [] x y d h k e = absurd h
same_sensor (z ∷ xs) x y d (inl p) (inl q) e = sym p ∙ q
same_sensor (z ∷ xs) x y d (inl p) (inr k) e =
    absurd (clash z xs y d.0 k (subst (λ w. str_eq w.id y.id ≡ true) (sym p) e))
same_sensor (z ∷ xs) x y d (inr h) (inl q) e = absurd (
    clash z xs x d.0 h
      (ground (arith, e, ap (λ (w : SensorConfig). w.id) q, eq_iff x.id y.id, eq_iff z.id x.id)))
same_sensor (z ∷ xs) x y d (inr h) (inr k) e = same_sensor xs x y d.1 h k e
