-- ===== src/Runtime/Writer.antt =====
-- src/runtime/writer.py: the thread that moves samples from the queue to the database in batches.
-- The other threads act between its steps: each turn of its loop lists what they do before `get`
-- returns, between a `get` that found nothing and the test `drained`, and during a write.
pub mod Flow
pub mod Delivery
pub mod Rounds
pub mod Run
pub mod Closing
pub mod Progress
use sensorctl.Prelude.{
  ℕ, ◌+◌, ◌*◌, String, true, false, not, ◌&&◌, ◌||◌, Option, none, some, List, [], ◌∷◌, ◌++◌, leb,
  if◌then◌else◌, length, is_empty, Exception, Result, ok, err,
}
use sensorctl.Prelude.Exec.{Exec, pure, ◌>>=◌, ◌>>◌}
use sensorctl.Model.{Sample}
use sensorctl.Runtime.Status.{committed}
use sensorctl.Runtime.Queue.{Shared, with_stats, submit, close, drained, get}
use sensorctl.Runtime.Store.{SampleStore}

-- What another thread does to the shared state: a worker submits a sample, the collector closes.
pub data Event : Type 0 where
  submits : Sample → Event
  closes : Event

unfoldable pub happen : Event → Shared → Shared
happen (submits sample) s = (submit sample s).1
happen closes s = close s

unfoldable pub happen_all : List Event → Shared → Shared
happen_all [] s = s
happen_all (e ∷ es) s = happen_all es (happen e s)

-- One round of the loop, with the clock in nanoseconds after `get`.
pub record Turn : Type 0 where
  pub before : List Event
  pub between : List Event
  pub now : ℕ
  pub writing : List Event
  pub committed_at : String

pub record WriterConfig : Type 0 where
  pub batch_size : ℕ
  pub flush_interval_ms : ℕ

-- `flush_seconds`, in nanoseconds.
abbrev pub flush_ns : WriterConfig → ℕ
flush_ns c = c.flush_interval_ms * 1_000_000

-- The variables of `run`.
pub record Loop : Type 0 where
  pub batch : List Sample
  pub deadline : ℕ

-- How a round ends.
pub data Outcome : Type 0 where
  breaks : Loop → Outcome
  continues : Loop → Outcome

module _ (S : SampleStore) where
  pub record World : Type 0 where
    pub shared : Shared
    pub db : S.State

  abbrev pub others : List Event → World → World
  others es w = record w { shared = happen_all es w.shared }

  abbrev pub on_db {ℓ} : {A : Type ℓ} → Exec S.State A → Exec World A
  on_db m w = let (r, db) = m w.db in (r, record w { db = db })

  abbrev pub on_shared {ℓ} : {A : Type ℓ} → Exec Shared A → Exec World A
  on_shared m w = let (r, shared) = m w.shared in (r, record w { shared = shared })

  -- `_flush`: the batch that is left.
  unfoldable pub flush : List Event → String → List Sample → Exec World (List Sample)
  flush writing committed_at [] = pure []
  flush writing committed_at (x ∷ xs) = do
    on_db (S.write (x ∷ xs))
    λ w. pure tt (others writing w)
    on_shared (with_stats (committed (x ∷ xs) committed_at))
    pure []

  -- The part of a round after `get`.
  unfoldable pub finish_round : WriterConfig → Turn → Loop → Exec World Outcome
  unfolding flush
  finish_round c t l =
      let should_flush =
        leb c.batch_size (length l.batch) || (not (is_empty l.batch) && leb l.deadline t.now) in
      do
        batch ← (if should_flush then flush t.writing t.committed_at l.batch else pure l.batch)
        pure (
            continues (record {
              batch = batch;
              deadline =
                  if should_flush || leb l.deadline t.now then t.now + flush_ns c else l.deadline;
            }))

  unfoldable pub receive : WriterConfig → Turn → Loop → Option (Option Sample) → Exec World Outcome
  unfolding finish_round
  receive c t l (some (some sample)) w =
      finish_round c t (record l { batch = l.batch ++ sample ∷ [] }) w
  receive c t l (some none) w = pure (breaks l) w
  receive c t l none w =
      let w' = others t.between w in
      if drained (w'.shared.queue) then pure (breaks l) w' else finish_round c t l w'

  unfoldable pub round : WriterConfig → Turn → Loop → Exec World Outcome
  unfolding receive
  round c t l w =
      let w' = others t.before w in
      let (item, shared) = get w'.shared in receive c t l item (record w' { shared = shared })

  continue : Result Outcome × World → (Loop → Exec World Outcome) → Result Outcome × World
  continue (ok (breaks l), w) rest = (ok (breaks l), w)
  continue (ok (continues l), w) rest = rest l w
  continue (err e, w) rest = (err e, w)

  -- The loop, for as long as the turns last.
  unfoldable pub loop : WriterConfig → List Turn → Loop → Exec World Outcome
  unfolding round continue
  loop c [] l w = pure (continues l) w
  loop c (t ∷ ts) l w = continue (round c t l w) (loop c ts)

  -- How the thread stands when the turns have passed.
  pub data WriterEnd : Type 0 where
    unfinished finished : WriterEnd
    failed : Exception → WriterEnd

  -- Leaving the loop: the last flush.
  unfoldable pub drain : String → Outcome → Exec World WriterEnd
  unfolding flush
  drain last (continues l) = pure unfinished
  drain last (breaks l) = do _ ← flush [] last l.batch; pure finished

  -- `Database.__exit__` and the handler of `run`: an exception stops the collector.
  fail : Exception → World → WriterEnd × World
  fail e w = (failed e, record w { shared = record (w.shared) { stop_event = true } })

  -- After `close`: an exception that it raises takes the place of the one that left the body.
  after_close : Result (Unit {0}) × World → Option Exception → WriterEnd × World
  unfolding fail
  after_close (ok u, w) none = (finished, w)
  after_close (ok u, w) (some e) = fail e w
  after_close (err e, w) _ = fail e w

  unfoldable pub exit : Result WriterEnd × World → WriterEnd × World
  unfolding fail after_close
  exit (ok unfinished, w) = (unfinished, w)
  exit (ok finished, w) = after_close (on_db (S.close_store true) w) none
  exit (ok (failed e), w) = fail e w
  exit (err e, w) = after_close (on_db (S.close_store false) w) (some e)

  -- `with Database(...) as database:` around a body.
  within : Exec World WriterEnd → Result (Unit {0}) × World → WriterEnd × World
  unfolding exit
  within body (ok u, w) = exit (body w)
  within body (err e, w) = fail e w

  unfoldable pub run : WriterConfig → ℕ → List Turn → String → World → WriterEnd × World
  unfolding loop drain within
  run c started turns last w =
      within
        (do
          end ← loop c turns (record { batch = []; deadline = started + flush_ns c })
          drain last end)
        (on_db S.open_store w)
