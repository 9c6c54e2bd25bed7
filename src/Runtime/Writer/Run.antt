-- ===== src/Runtime/Writer/Run.antt =====
-- What `run` of src/runtime/writer.py leaves in the database, however it ends.
use mathlib.Core.List.{append-nil}
use sensorctl.Prelude.{
  ℕ, ◌+◌, ◌≡◌, refl, sym, ap, subst, ◌∙◌, String, Bool, true, false, none, some, List, [], ◌∷◌,
  ◌++◌, map, arith, length, Exception, Result, ok, err,
}
use sensorctl.Prelude.Subseq.{Subseq, done}
use sensorctl.Prelude.Exec.{Exec, pure, then_do, >>=-cases}
use sensorctl.Model.{Sample}
use sensorctl.Runtime.Status.{committed}
use sensorctl.Runtime.Queue.{with_stats, SampleQueue, drained}
use sensorctl.Runtime.Store.{SampleStore, IsTransactional}
use sensorctl.Runtime.Writer.{
  Turn, WriterConfig, Outcome, breaks, continues, World, happen_all, others, on_db, on_shared,
  flush, flush_ns, WriterEnd, unfinished, finished, failed, drain, fail, after_close, exit, within,
  run,
}
use sensorctl.Runtime.Writer.Flow.{all_submissions}
use sensorctl.Runtime.Writer.Delivery.{Inv, Stored, Stored-more, Inv-Stored, FlushEnds, flush_lem}
use sensorctl.Runtime.Writer.Rounds.{RoundEnds, loop_lem}

module _ (S : SampleStore) where
  -- The writer finished: what it stored are samples that were submitted, in order, as many as the
  -- queue accepted and as many as are counted as committed. The queue is closed and empty.
  pub record Delivered (start submitted : List Sample) (w : World S) : Type 0 where
    pub journal : List Sample
    pub admitted : Subseq journal submitted
    pub stored : S.contents w.db ≡ start ++ journal
    pub accepted : w.shared.stats.accepted_count ≡ length journal
    pub committed : w.shared.stats.committed_count ≡ length journal
    pub empty : drained w.shared.queue ≡ true

module _ (S : SampleStore) (lawful : IsTransactional S) (start : List Sample) where
  abbrev pub RunEnds : List Sample → WriterEnd S × World S → Type 0
  RunEnds submitted (unfinished, w) = Stored S lawful start submitted w
  RunEnds submitted (finished, w) = Delivered S start submitted w
  RunEnds submitted (failed e, w) = Stored S lawful start submitted w × (w.shared.stop_event ≡ true)

  -- The same before the connection is closed.
  abbrev BodyEnds : List Sample → Result (WriterEnd S) × World S → Type 0
  BodyEnds submitted (ok unfinished, w) = Stored S lawful start submitted w
  BodyEnds submitted (ok finished, w) = Delivered S start submitted w
  BodyEnds submitted (ok (failed e), w) = Stored S lawful start submitted w
  BodyEnds submitted (err e, w) = Stored S lawful start submitted w

  no_items : (q : SampleQueue) → drained q ≡ true → q.items ≡ []
  unfolding drained
  no_items q h = ground arith

  Inv-Delivered :
      (submitted : List Sample) (w : World S)
      → Inv S lawful start submitted [] w
      → drained w.shared.queue ≡ true
      → Delivered S start submitted w
  Inv-Delivered submitted w v empty =
      go v.flows.queued (sym (no_items w.shared.queue empty) ∙ v.flows.items) v.flows.split
    where
      go :
          (queued : List Sample)
          → [] ≡ map some queued
          → (v.written ++ []) ++ queued ≡ v.flows.journal
          → Delivered S start submitted w
      go (x ∷ queued) same split = cc
      go [] same split = record {
        journal = v.flows.journal;
        admitted = v.flows.admitted;
        stored = v.stored ∙ ap (λ l. start ++ l) whole;
        accepted = v.flows.counted;
        committed = v.totals ∙ ap length whole;
        empty = empty;
      }
        where
          whole : v.written ≡ v.flows.journal
          whole = sym (append-nil v.written) ∙ sym (append-nil (v.written ++ [])) ∙ split

  flush-queue :
      (at : String) (batch : List Sample) (w : World S)
      → (flush S [] at batch w).1.shared.queue ≡ w.shared.queue
  unfolding flush happen_all
  flush-queue at [] w = refl
  flush-queue at (x ∷ xs) w =
      >>=-cases P (on_db S (S.write (x ∷ xs))) _ w
        (λ _ _.
          >>=-cases P (on_shared S (with_stats (committed (x ∷ xs) at))) _ (others S [] _)
            (λ _ _. refl) (λ _ _. refl))
        (λ _ _. refl)
    where
      P : Result (List Sample) × World S → Type 0
      P r = r.1.shared.queue ≡ w.shared.queue

  last_flush :
      (submitted : List Sample) (r : Result (List Sample) × World S)
      → FlushEnds S lawful start submitted r
      → drained r.1.shared.queue ≡ true
      → BodyEnds submitted (then_do r (λ _. pure finished))
  last_flush submitted (ok batch, w) (v, none_left) empty =
      Inv-Delivered submitted w (subst (λ b. Inv S lawful start submitted b w) none_left v) empty
  last_flush submitted (err e, w) v empty = v

  drain_lem :
      (last : String) (submitted : List Sample) (r : Result Outcome × World S)
      → RoundEnds S lawful start submitted r
      → BodyEnds submitted (then_do r (drain S last))
  unfolding drain
  drain_lem last submitted (ok (continues l), w) v = Inv-Stored S lawful start submitted l.batch w v
  drain_lem last submitted (ok (breaks l), w) (v, empty) =
      last_flush submitted (flush S [] last l.batch w)
        (subst (λ sub. FlushEnds S lawful start sub (flush S [] last l.batch w))
          (append-nil submitted) (flush_lem S lawful start [] last submitted l.batch w v))
        (ap drained (flush-queue last l.batch w) ∙ empty)
  drain_lem last submitted (err e, w) v = v

  closed-Stored :
      (checkpoint : Bool) (submitted : List Sample) (w : World S)
      → Stored S lawful start submitted w
      → Stored S lawful start submitted (on_db S (S.close_store checkpoint) w).1
  closed-Stored checkpoint submitted w v = record {
    journal = v.journal;
    written = v.written;
    taken = v.taken;
    queued = v.queued;
    admitted = v.admitted;
    counted = v.counted;
    items = v.items;
    stored = lawful.close_keeps checkpoint w.db ∙ v.stored;
    front = v.front;
  }

  Delivered-Stored :
      (submitted : List Sample) (w : World S)
      → Delivered S start submitted w
      → Stored S lawful start submitted w
  Delivered-Stored submitted w d = record {
    journal = d.journal;
    written = d.journal;
    taken = [];
    queued = [];
    admitted = d.admitted;
    counted = d.accepted;
    items = no_items w.shared.queue d.empty;
    stored = d.stored;
    front = append-nil d.journal;
  }

  -- A thread that fails stops the collector, and changes nothing else.
  fail-Stored :
      (e : Exception) (submitted : List Sample) (w : World S)
      → Stored S lawful start submitted w
      → RunEnds submitted (fail S e w)
  unfolding fail
  fail-Stored e submitted w v = (
    record {
      journal = v.journal;
      written = v.written;
      taken = v.taken;
      queued = v.queued;
      admitted = v.admitted;
      counted = v.counted;
      items = v.items;
      stored = v.stored;
      front = v.front;
    },
    refl,
  )

  leave_finished :
      (submitted : List Sample) (w : World S) (r : Result (Unit {0}))
      → Delivered S start submitted w
      → RunEnds submitted (after_close S (r, w) none)
  unfolding after_close
  leave_finished submitted w (ok u) d = d
  leave_finished submitted w (err e) d = fail-Stored e submitted w (Delivered-Stored submitted w d)

  leave_failed :
      (submitted : List Sample) (w : World S) (r : Result (Unit {0})) (e : Exception)
      → Stored S lawful start submitted w
      → RunEnds submitted (after_close S (r, w) (some e))
  unfolding after_close
  leave_failed submitted w (ok u) e v = fail-Stored e submitted w v
  leave_failed submitted w (err f) e v = fail-Stored f submitted w v

  closed-Delivered :
      (submitted : List Sample) (w : World S)
      → Delivered S start submitted w
      → Delivered S start submitted (on_db S (S.close_store true) w).1
  closed-Delivered submitted w d = record {
    journal = d.journal;
    admitted = d.admitted;
    stored = lawful.close_keeps true w.db ∙ d.stored;
    accepted = d.accepted;
    committed = d.committed;
    empty = d.empty;
  }

  exit_lem :
      (submitted : List Sample) (r : Result (WriterEnd S) × World S)
      → BodyEnds submitted r
      → RunEnds submitted (exit S r)
  unfolding exit
  exit_lem submitted (ok unfinished, w) v = v
  exit_lem submitted (ok finished, w) d =
      leave_finished submitted _ (on_db S (S.close_store true) w).0 (closed-Delivered submitted w d)
  exit_lem submitted (ok (failed e), w) v = fail-Stored e submitted w v
  exit_lem submitted (err e, w) v =
      leave_failed submitted _ (on_db S (S.close_store false) w).0 e
        (closed-Stored false submitted w v)

  -- `with Database(...)` around a body that ends as it should from whatever the opening leaves.
  within_lem :
      (submitted : List Sample) (body : Exec (World S) (WriterEnd S))
      (r : Result (Unit {0}) × World S)
      → Inv S lawful start [] [] r.1
      → (Inv S lawful start [] [] r.1 → BodyEnds submitted (body r.1))
      → RunEnds submitted (within S body r)
  unfolding within
  within_lem submitted body (ok u, w) v sound = exit_lem submitted (body w) (sound v)
  within_lem submitted body (err e, w) v sound =
      fail-Stored e submitted w
        (Stored-more S lawful start [] submitted w (Inv-Stored S lawful start [] [] w v))

-- Whatever the other threads do and however the writer ends, the samples that were submitted have a
-- subsequence with as many samples as the queue accepted, which ends with those that are still queued,
-- and the database holds what it held before and then a front part of this subsequence, in its order.
-- A writer that finishes has stored all of it, counts all as committed and leaves the queue closed and
-- empty; one that fails stops the collector. The store is transactional, and the queue and the two
-- totals are at their start.
pub run-RunEnds :
    (S : SampleStore) (lawful : IsTransactional S) (c : WriterConfig) (started : ℕ)
    (turns : List Turn) (last : String) (w : World S)
    → w.shared.queue.items ≡ []
    → w.shared.stats.accepted_count ≡ 0
    → w.shared.stats.committed_count ≡ 0
    → RunEnds S lawful (S.contents w.db) (all_submissions turns) (run S c started turns last w)
unfolding run
run-RunEnds S lawful c started turns last w items accepted committed =
    within_lem S lawful start (all_submissions turns) _ (on_db S S.open_store w)
      (record {
        written = [];
        stored = lawful.open_keeps w.db ∙ sym (append-nil start);
        flows = record {
          journal = [];
          queued = [];
          admitted = done;
          items = items;
          split = refl;
          counted = accepted;
        };
        totals = committed;
      })
      λ v. drain_lem S lawful start last (all_submissions turns) _ (
        loop_lem S lawful start c turns (record { batch = []; deadline = started + flush_ns c }) []
          _ v)
  where
    start : List Sample
    start = S.contents w.db
