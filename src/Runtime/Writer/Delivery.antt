-- ===== src/Runtime/Writer/Delivery.antt =====
-- The state of the writer of src/runtime/writer.py between the queue and the store: its invariant.
use mathlib.Core.List.{append-nil, append_assoc}
use sensorctl.Prelude.{
  ◌≡◌, refl, sym, ap, ◌∙◌, String, List, [], ◌∷◌, ◌++◌, map, some, arith, length, length-append,
  Result, ok, err,
}
use sensorctl.Prelude.Subseq.{Subseq, Subseq-more}
use sensorctl.Prelude.Exec.{>>=-cases}
use sensorctl.Model.{Sample}
use sensorctl.Runtime.Status.{committed}
use sensorctl.Runtime.Status.Counts.{accepted-committed, committed-committed}
use sensorctl.Runtime.Queue.{Shared, with_stats}
use sensorctl.Runtime.Store.{SampleStore, IsTransactional}
use sensorctl.Runtime.Writer.{Event, World, others, on_db, on_shared, flush}
use sensorctl.Runtime.Writer.Flow.{Flows, submissions, happen_all-Flows, happen_all-committed_count}

module _ (S : SampleStore) (lawful : IsTransactional S) (start : List Sample) where
  -- Between two steps of the writer that holds `batch`.
  pub record Inv (submitted batch : List Sample) (w : World S) : Type 0 where
    pub written : List Sample
    pub stored : S.contents w.db ≡ start ++ written
    pub flows : Flows submitted (written ++ batch) w.shared
    pub totals : w.shared.stats.committed_count ≡ length written

  -- What is stored is the old contents and a front part of the journal, which has as many samples as the
  -- queue accepted. After that part the journal has what the writer took and did not store, and at
  -- its end what is still queued.
  pub record Stored (submitted : List Sample) (w : World S) : Type 0 where
    pub journal : List Sample
    pub written : List Sample
    pub taken : List Sample
    pub queued : List Sample
    pub admitted : Subseq journal submitted
    pub counted : w.shared.stats.accepted_count ≡ length journal
    pub items : w.shared.queue.items ≡ map some queued
    pub stored : S.contents w.db ≡ start ++ written
    pub front : written ++ (taken ++ queued) ≡ journal

  pub Stored-more :
      (submitted more : List Sample) (w : World S)
      → Stored submitted w
      → Stored (submitted ++ more) w
  Stored-more submitted more w v = record {
    journal = v.journal;
    written = v.written;
    taken = v.taken;
    queued = v.queued;
    admitted = Subseq-more more v.admitted;
    counted = v.counted;
    items = v.items;
    stored = v.stored;
    front = v.front;
  }

  pub Inv-more :
      (submitted more batch : List Sample) (w : World S)
      → Inv submitted batch w
      → Inv (submitted ++ more) batch w
  Inv-more submitted more batch w v = record {
    written = v.written;
    stored = v.stored;
    flows = record {
      journal = v.flows.journal;
      queued = v.flows.queued;
      admitted = Subseq-more more v.flows.admitted;
      items = v.flows.items;
      split = v.flows.split;
      counted = v.flows.counted;
    };
    totals = v.totals;
  }

  pub Inv-Stored :
      (submitted batch : List Sample) (w : World S) → Inv submitted batch w → Stored submitted w
  Inv-Stored submitted batch w v = record {
    journal = v.flows.journal;
    written = v.written;
    taken = batch;
    queued = v.flows.queued;
    admitted = v.flows.admitted;
    counted = v.flows.counted;
    items = v.flows.items;
    stored = v.stored;
    front = sym (append_assoc v.written batch v.flows.queued) ∙ v.flows.split;
  }

  pub others-Inv :
      (es : List Event) (submitted batch : List Sample) (w : World S)
      → Inv submitted batch w
      → Inv (submitted ++ submissions es) batch (others S es w)
  others-Inv es submitted batch w v = record {
    written = v.written;
    stored = v.stored;
    flows = happen_all-Flows es submitted (v.written ++ batch) w.shared v.flows;
    totals = happen_all-committed_count es w.shared ∙ v.totals;
  }

  -- The batch in the database, and then counted.
  abbrev counted_world : List Sample → String → Shared → S.State → World S
  counted_world batch at shared db = record {
    shared = record shared { stats = (committed batch at shared.stats).1 };
    db = db;
  }

  counted-Inv :
      (at : String) (submitted batch : List Sample) (w : World S) (db : S.State)
      → Inv submitted batch w
      → S.contents db ≡ S.contents w.db ++ batch
      → Inv submitted [] (counted_world batch at w.shared db)
  counted-Inv at submitted batch w db v grown = record {
    written = v.written ++ batch;
    stored = grown ∙ ap (λ l. l ++ batch) v.stored ∙ append_assoc start v.written batch;
    flows = rw append-nil (record {
      journal = v.flows.journal;
      queued = v.flows.queued;
      admitted = v.flows.admitted;
      items = v.flows.items;
      split = v.flows.split;
      counted = accepted-committed batch at w.shared.stats ∙ v.flows.counted;
    });
    totals = omega (
      arith,
      committed-committed batch at w.shared.stats,
      v.totals,
      length-append v.written batch,
    );
  }

  abbrev pub FlushEnds : List Sample → Result (List Sample) × World S → Type 0
  FlushEnds submitted (ok batch, w) = Inv submitted batch w × (batch ≡ [])
  FlushEnds submitted (err e, w) = Stored submitted w

  pub flush_lem :
      (es : List Event) (at : String) (submitted batch : List Sample) (w : World S)
      → Inv submitted batch w
      → FlushEnds (submitted ++ submissions es) (flush S es at batch w)
  unfolding flush
  flush_lem es at submitted [] w v = (Inv-more submitted (submissions es) [] w v, refl)
  flush_lem es at submitted (x ∷ xs) w v =
      >>=-cases P (on_db S (S.write (x ∷ xs))) _ w
        (λ u wrote.
          let w' = others S es w in
          let counted =
            counted-Inv at (submitted ++ submissions es) (x ∷ xs) w' (S.write (x ∷ xs) w.db).1
              (others-Inv es submitted (x ∷ xs) w v) (lawful.write_ok (x ∷ xs) w.db wrote) in
          >>=-cases P (on_shared S (with_stats (committed (x ∷ xs) at))) _
            (others S es (record w { db = (S.write (x ∷ xs) w.db).1 })) (λ _ _. (counted, refl))
            (λ _ _. Inv-Stored (submitted ++ submissions es) [] _ counted))
        (λ e refused.
          Stored-more submitted (submissions es) _
            (unwritten (lawful.write_err (x ∷ xs) w.db e refused)))
    where
      P : Result (List Sample) × World S → Type 0
      P = FlushEnds (submitted ++ submissions es)

      before : Stored submitted w
      before = Inv-Stored submitted (x ∷ xs) w v

      unwritten :
          S.contents (S.write (x ∷ xs) w.db).1 ≡ S.contents w.db
          → Stored submitted (record w { db = (S.write (x ∷ xs) w.db).1 })
      unwritten same = record {
        journal = before.journal;
        written = before.written;
        taken = before.taken;
        queued = before.queued;
        admitted = before.admitted;
        counted = before.counted;
        items = before.items;
        stored = same ∙ before.stored;
        front = before.front;
      }
