-- ===== src/Collector/Shutdown/Complete.antt =====
-- When the shutdown of src/collector.py counts as complete.
use sensorctl.Prelude.{
  ℕ, ◌+◌, ◌*◌, ◌≤◌, ◌≡◌, refl, ap, ◌∙◌, String, Bool, true, false, not, ◌&&◌, Option, none, some,
  List, [], ◌∷◌, ◌++◌, arith, all, is_empty, All, Exception, Result, ok, err,
}
use sensorctl.Config.Load.Topology.{is_ok}
use sensorctl.Collector.Schedule.Passes.{is_none}
use sensorctl.Runtime.Status.{ShutdownReport, shutdown}
use sensorctl.Runtime.Queue.{close}
use sensorctl.Collector.Shutdown.{
  Thread, Threads, System, all_threads, join_until, join_all, joined_at, alive_at, is_alive,
  alive_names, error_text, error_texts, deadline_error, write_error, raise_errors, shut_down,
}

-- The thread ends no later than that; it has no error.
abbrev pub ends_by : ℕ → Thread → Bool
ends_by deadline thread = not (is_alive deadline thread)

abbrev pub is_sound : Thread → Bool
is_sound thread = is_none thread.error

join_until_bounds :
    (deadline now : ℕ) (e : Option ℕ)
    → now ≤ deadline
    → (now ≤ join_until deadline e now) × (join_until deadline e now ≤ deadline)
join_until_bounds deadline now none h = (omega arith, omega arith)
join_until_bounds deadline now (some t) h = (omega arith, omega arith)

-- After the join the thread is alive only if it is at the deadline.
join_until_alive :
    (deadline now later : ℕ) (e : Option ℕ)
    → join_until deadline e now ≤ later
    → later ≤ deadline
    → alive_at later e ≡ alive_at deadline e
join_until_alive deadline now later none h k = refl
join_until_alive deadline now later (some t) h k = ground arith

join_all_bounds :
    (deadline now : ℕ) (threads : List Thread)
    → now ≤ deadline
    → (now ≤ join_all deadline threads now) × (join_all deadline threads now ≤ deadline)
unfolding join_all
join_all_bounds deadline now [] h = (omega arith, h)
join_all_bounds deadline now (thread ∷ threads) h =
    let (a, b) = join_until_bounds deadline now thread.ends_at h in
    let (c, d) = join_all_bounds deadline (join_until deadline thread.ends_at now) threads b in
    (omega (arith, a, c), d)

abbrev SameAlive : ℕ → ℕ → Thread → Type 0
SameAlive later deadline thread = is_alive later thread ≡ is_alive deadline thread

join_all_alive :
    (deadline now later : ℕ) (threads : List Thread)
    → now ≤ deadline
    → join_all deadline threads now ≤ later
    → later ≤ deadline
    → All (SameAlive later deadline) threads
unfolding join_all
join_all_alive deadline now later [] h k m = tt
join_all_alive deadline now later (thread ∷ threads) h k m =
    let next = join_until deadline thread.ends_at now in
    let (a, b) = join_until_bounds deadline now thread.ends_at h in
    let (c, d) = join_all_bounds deadline next threads b in
    (
      join_until_alive deadline now later thread.ends_at (omega (arith, c, k)) m,
      join_all_alive deadline next later threads b k m,
    )

All-append {ℓ κ} :
    {A : Type ℓ} (P : A → Type κ) (xs ys : List A) → All P xs → All P ys → All P (xs ++ ys)
All-append P [] ys h k = k
All-append P (x ∷ xs) ys h k = (h.0, All-append P xs ys h.1 k)

alive_names_same :
    (later deadline : ℕ) (threads : List Thread)
    → All (SameAlive later deadline) threads
    → alive_names later threads ≡ alive_names deadline threads
unfolding alive_names
alive_names_same later deadline [] h = refl
alive_names_same later deadline (thread ∷ threads) h =
    ground (arith, h.0, alive_names_same later deadline threads h.1)

none_alive :
    (deadline : ℕ) (threads : List Thread)
    → is_empty (alive_names deadline threads) ≡ all (ends_by deadline) threads
unfolding alive_names
none_alive deadline [] = refl
none_alive deadline (thread ∷ threads) = ground (arith, none_alive deadline threads)

is_empty-append {ℓ} :
    {A : Type ℓ} (xs ys : List A) → is_empty (xs ++ ys) ≡ (is_empty xs && is_empty ys)
is_empty-append [] ys = refl
is_empty-append (x ∷ xs) ys = refl

error_text_empty : (name : String) (e : Option Exception) → is_empty (error_text name e) ≡ is_none e
error_text_empty name none = refl
error_text_empty name (some e) = refl

none_failed : (threads : List Thread) → is_empty (error_texts threads) ≡ all is_sound threads
unfolding error_texts
none_failed [] = refl
none_failed (thread ∷ threads) = ground (
  arith,
  is_empty-append (error_text thread.name thread.error) (error_texts threads),
  error_text_empty thread.name thread.error,
  none_failed threads,
)

deadline_error_empty : (names : List String) → is_empty (deadline_error names) ≡ is_empty names
deadline_error_empty [] = refl
deadline_error_empty (n ∷ names) = refl

raise_errors_ok : (errors : List String) → is_ok (raise_errors errors) ≡ is_empty errors
raise_errors_ok [] = refl
raise_errors_ok (e ∷ errors) = refl

write_error_empty :
    (alive : Bool) (written : Result (Unit {0}))
    → (not alive && is_empty (write_error alive written)) ≡ (not alive && is_ok written)
write_error_empty true written = refl
write_error_empty false (ok u) = refl
write_error_empty false (err e) = refl

-- What the shutdown comes to: its result, its duration, and the report that it leaves.
pub record Concluded (timeout now : ℕ) (t : Threads) (written : Result (Unit {0}))
    (result : Result (Unit {0}) × System) : Type 0 where
  pub succeeds : is_ok result.0 ≡ (
      all (ends_by (now + timeout * 1000)) (all_threads t)
      && (all is_sound (all_threads t) && is_ok written))
  pub in_time : joined_at (now + timeout * 1000) t now ≤ now + timeout * 1000
  pub report : ShutdownReport
  pub reported : result.1.shared.stats.shutdown_report ≡ some report
  pub complete :
      report.complete
      ≡ (all (ends_by (now + timeout * 1000)) (all_threads t) && all is_sound (all_threads t))
  pub alive : report.alive_threads ≡ alive_names (now + timeout * 1000) (all_threads t)
  pub closed : result.1.shared.queue.closed ≡ true
  pub stopped : result.1.shared.stop_event ≡ true

joined_lem :
    (deadline now : ℕ) (t : Threads)
    → now ≤ deadline
    → (joined_at deadline t now ≤ deadline)
      × All (SameAlive (joined_at deadline t now) deadline) (all_threads t)
      × SameAlive (joined_at deadline t now) deadline t.status_writer
unfolding joined_at
joined_lem deadline now t h =
    let (_, a) = join_all_bounds deadline now t.workers h in
    let first = join_all deadline t.workers now in
    let (b, c) = join_until_bounds deadline first t.writer.ends_at a in
    let second = join_until deadline t.writer.ends_at first in
    let (d, e) = join_until_bounds deadline second t.status_writer.ends_at c in
    let last = join_until deadline t.status_writer.ends_at second in
    (
      e,
      All-append (SameAlive last deadline) t.workers (t.writer ∷ t.status_writer ∷ [])
          (join_all_alive deadline now last t.workers h (omega (arith, b, d)) e)
          (
            join_until_alive deadline first last t.writer.ends_at d e,
            (join_until_alive deadline second last t.status_writer.ends_at (omega arith) e, tt),
          ),
      join_until_alive deadline second last t.status_writer.ends_at (omega arith) e,
    )

all-append {ℓ} :
    {A : Type ℓ} (p : A → Bool) (xs ys : List A) → all p (xs ++ ys) ≡ (all p xs && all p ys)
all-append p [] ys = refl
all-append p (x ∷ xs) ys = ground (arith, all-append p xs ys)

-- The shutdown ends by its deadline. It returns exactly if every thread ends by the deadline, no
-- thread has an error, and the last status could be written. The report names the threads that did
-- not end in time, and it is complete exactly if there is none and no thread has an error. The queue
-- is closed and the stop event set.
pub shut_down-Concluded :
    (timeout now : ℕ) (t : Threads) (written : Result (Unit {0})) (s : System)
    → Concluded timeout now t written (shut_down timeout now t written s)
unfolding shut_down shutdown close
shut_down-Concluded timeout now t written s = record {
  succeeds =
      raise_errors_ok (errors ++ writing)
      ∙ (is_empty-append errors writing
          ∙ ground (
            arith,
            no_errors,
            none_left,
            status_ends,
            on_time.2,
            write_error_empty (is_alive later t.status_writer) written,
          ));
  in_time = on_time.0;
  report = record {
    complete = is_empty alive && is_empty errors;
    alive_threads = alive;
    errors = errors;
    pending_tasks = _;
    uncommitted_samples = _;
  };
  reported = refl;
  complete = ground (arith, no_errors, none_left);
  alive = same_names;
  closed = refl;
  stopped = refl;
}
  where
    deadline : ℕ
    deadline = now + timeout * 1000

    later : ℕ
    later = joined_at deadline t now

    on_time :
        (later ≤ deadline)
        × All (SameAlive later deadline) (all_threads t)
        × SameAlive later deadline t.status_writer
    on_time = joined_lem deadline now t (omega arith)

    alive : List String
    alive = alive_names later (all_threads t)

    errors : List String
    errors = error_texts (all_threads t) ++ deadline_error alive

    writing : List String
    writing = write_error (is_alive later t.status_writer) written

    same_names : alive ≡ alive_names deadline (all_threads t)
    same_names = alive_names_same later deadline (all_threads t) on_time.1

    none_left : is_empty alive ≡ all (ends_by deadline) (all_threads t)
    none_left = ap is_empty same_names ∙ none_alive deadline (all_threads t)

    no_errors : is_empty errors ≡ (all is_sound (all_threads t) && is_empty alive)
    no_errors =
        is_empty-append (error_texts (all_threads t)) (deadline_error alive)
        ∙ ground (arith, none_failed (all_threads t), deadline_error_empty alive)

    status_ends : all (ends_by deadline) (all_threads t) ≡ (
        all (ends_by deadline) t.workers
        && (ends_by deadline t.writer && (ends_by deadline t.status_writer && true)))
    status_ends = all-append (ends_by deadline) t.workers (t.writer ∷ t.status_writer ∷ [])
