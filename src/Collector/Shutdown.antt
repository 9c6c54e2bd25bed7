-- ===== src/Collector/Shutdown.antt =====
-- The `finally` of `Collector.run` in src/collector.py: stop, wait for the threads until the deadline,
-- report. Times are in milliseconds; when and how each thread ends is given.
pub mod Complete
use sensorctl.Prelude.{
  ℕ, ◌+◌, ◌*◌, min, max, String, Bool, true, false, Option, none, some, List, [], ◌∷◌, ◌++◌, ltb,
  if◌then◌else◌, is_empty, join, ◌<>◌, Exception, Result, ok, err, raise, runtime_error,
}
use sensorctl.Prelude.Dict.{Dict}
use sensorctl.Runtime.Status.{shutdown}
use sensorctl.Runtime.Queue.{Shared, close}
use sensorctl.Runtime.Worker.{ReadTask}

-- A thread with the time at which it ends, if it does, and its `error`.
pub record Thread : Type 0 where
  pub name : String
  pub ends_at : Option ℕ
  pub error : Option Exception

-- `thread.join(_remaining(deadline))` from one time to the other.
abbrev pub join_until : ℕ → Option ℕ → ℕ → ℕ
join_until deadline none now = max now deadline
join_until deadline (some t) now = max now (min t deadline)

unfoldable pub join_all : ℕ → List Thread → ℕ → ℕ
join_all deadline [] now = now
join_all deadline (thread ∷ threads) now =
    join_all deadline threads (join_until deadline thread.ends_at now)

abbrev pub alive_at : ℕ → Option ℕ → Bool
alive_at now none = true
alive_at now (some t) = ltb now t

-- `thread.is_alive()`
abbrev pub is_alive : ℕ → Thread → Bool
is_alive now thread = alive_at now thread.ends_at

unfoldable pub alive_names : ℕ → List Thread → List String
alive_names now [] = []
alive_names now (thread ∷ threads) =
    let rest = alive_names now threads in if is_alive now thread then thread.name ∷ rest else rest

abbrev pub error_text : String → Option Exception → List String
error_text name none = []
error_text name (some e) = (name <> (": " <> e.message)) ∷ []

unfoldable pub error_texts : List Thread → List String
error_texts [] = []
error_texts (thread ∷ threads) = error_text thread.name thread.error ++ error_texts threads

abbrev pub deadline_error : List String → List String
deadline_error [] = []
deadline_error (name ∷ names) = ("shutdown deadline exceeded: " <> join ", " (name ∷ names)) ∷ []

pub record Threads : Type 0 where
  pub workers : List Thread
  pub writer : Thread
  pub status_writer : Thread

abbrev pub all_threads : Threads → List Thread
all_threads t = t.workers ++ t.writer ∷ t.status_writer ∷ []

pub record System : Type 0 where
  pub shared : Shared
  pub bus_tasks : Dict (List (Option ReadTask))

-- `for tasks in bus_tasks.values(): tasks.put(None)`
unfoldable pub put_none : Dict (List (Option ReadTask)) → Dict (List (Option ReadTask))
put_none [] = []
put_none ((bus, tasks) ∷ rest) = (bus, tasks ++ none ∷ []) ∷ put_none rest

-- `self._stop_event.set()` and the end marks.
abbrev pub stop_all : System → System
stop_all s = record {
  shared = record (s.shared) { stop_event = true };
  bus_tasks = put_none s.bus_tasks;
}

-- The time after the last join; `results.close()` is between the joins.
unfoldable pub joined_at : ℕ → Threads → ℕ → ℕ
unfolding join_all
joined_at deadline t now =
    join_until deadline t.status_writer.ends_at
      (join_until deadline t.writer.ends_at (join_all deadline t.workers now))

-- The last write of the status file.
abbrev pub write_error : Bool → Result (Unit {0}) → List String
write_error true written = []
write_error false (ok u) = []
write_error false (err e) = ("final status write failed: " <> e.message) ∷ []

abbrev pub raise_errors : List String → Result (Unit {0})
raise_errors [] = ok tt
raise_errors (e ∷ errors) = raise runtime_error (join "; " (e ∷ errors))

unfoldable pub shut_down : ℕ → ℕ → Threads → Result (Unit {0}) → System → Result (Unit {0}) × System
shut_down shutdown_timeout_s now t written s =
    let s1 = stop_all s in
    let later = joined_at (now + shutdown_timeout_s * 1000) t now in
    let alive = alive_names later (all_threads t) in
    let errors = error_texts (all_threads t) ++ deadline_error alive in
    let closed = close s1.shared in
    let s2 = record s1 {
      shared = record closed { stats = shutdown alive errors (closed.stats) };
    } in
    (raise_errors (errors ++ write_error (is_alive later t.status_writer) written), s2)
