-- ===== src/Runtime/Queue.antt =====
-- src/runtime/queue.py: the bounded queue of samples between the bus workers and the database writer.
-- What the threads share is one record: the statistics, the queue and the stop event. `submit` and
-- `close` hold the admission lock throughout, so each is one step.
use sensorctl.Prelude.{
  ℕ, Bool, true, false, ◌&&◌, Option, none, some, List, [], ◌∷◌, ◌++◌, leb, ltb, if◌then◌else◌,
  length, is_empty,
}
use sensorctl.Prelude.Exec.{Exec, pure}
use sensorctl.Model.{Sample}
use sensorctl.Runtime.Status.{RuntimeStats, accepted, dropped}

-- The fields of `queue.Queue` that matter, oldest item first, and the closed event.
pub record SampleQueue : Type 0 where
  pub items : List (Option Sample)
  pub capacity : ℕ
  pub closed : Bool

abbrev pub new_queue : ℕ → SampleQueue
new_queue capacity = record { items = []; capacity = capacity; closed = false }

pub record Shared : Type 0 where
  pub stats : RuntimeStats
  pub queue : SampleQueue
  pub stop_event : Bool

abbrev pub with_stats {ℓ} : {A : Type ℓ} → Exec RuntimeStats A → Exec Shared A
with_stats m s = let (r, stats) = m s.stats in (r, record s { stats = stats })

-- `put_nowait` raises `Full` on this: a capacity of 0 or less means no limit.
abbrev pub is_full : SampleQueue → Bool
is_full q = ltb 0 q.capacity && leb q.capacity (length q.items)

-- `put_nowait` and the count that follows it.
abbrev pub admit : Sample → Shared → Shared
admit sample s = record s {
  queue = record (s.queue) { items = s.queue.items ++ some sample ∷ [] };
  stats = accepted s.stats;
}

unfoldable pub submit : Sample → Exec Shared (Unit {0})
submit sample s =
    if s.queue.closed
    then with_stats (dropped sample.sensor_id) s
    else if is_full s.queue
    then with_stats (dropped sample.sensor_id) s
    else pure tt (admit sample s)

unfoldable pub close : Shared → Shared
close s = record s { queue = record (s.queue) { closed = true } }

unfoldable pub drained : SampleQueue → Bool
drained q = q.closed && is_empty q.items

-- `get` when it returns: the oldest item, or `none` for the exception `Empty`.
abbrev pub take_front : Shared → List (Option Sample) → Option (Option Sample) × Shared
take_front s [] = (none, s)
take_front s (item ∷ items) = (some item, record s { queue = record (s.queue) { items = items } })

unfoldable pub get : Shared → Option (Option Sample) × Shared
get s = take_front s s.queue.items
