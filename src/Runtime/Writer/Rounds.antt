-- ===== src/Runtime/Writer/Rounds.antt =====
-- The loop of src/runtime/writer.py keeps the invariant of its state, and ends as `run` says.
use mathlib.Core.List.{append_assoc}
use mathlib.Core.Option.{some-injective}
use sensorctl.Prelude.{
  ℕ, ◌≡◌, refl, sym, subst, ◌∙◌, true, Option, none, some, List, [], ◌∷◌, ◌++◌, if-cases, Result,
  ok, err,
}
use sensorctl.Prelude.Exec.{pure, then_do}
use sensorctl.Model.{Sample}
use sensorctl.Runtime.Queue.{drained, get, take_front}
use sensorctl.Runtime.Store.{SampleStore, IsTransactional}
use sensorctl.Runtime.Writer.{
  Turn, WriterConfig, Loop, Outcome, breaks, continues, World, others, flush, finish_round, receive,
  round, continue, loop,
}
use sensorctl.Runtime.Writer.Flow.{Flows, Flows-pop, submissions, turn_submissions, all_submissions}
use sensorctl.Runtime.Writer.Delivery.{
  Inv, Stored, Stored-more, Inv-more, others-Inv, FlushEnds, flush_lem,
}

module _ (S : SampleStore) (lawful : IsTransactional S) (start : List Sample) where
  abbrev Here : List Sample → List Sample → World S → Type 0
  Here = Inv S lawful start

  -- How a round, or the loop, ends. It breaks only when the queue is closed and empty.
  abbrev pub RoundEnds : List Sample → Result Outcome × World S → Type 0
  RoundEnds submitted (ok (breaks l), w) =
      Here submitted l.batch w × (drained w.shared.queue ≡ true)
  RoundEnds submitted (ok (continues l), w) = Here submitted l.batch w
  RoundEnds submitted (err e, w) = Stored S lawful start submitted w

  abbrev MidEnds : List Sample → Result (List Sample) × World S → Type 0
  MidEnds submitted (ok batch, w) = Here submitted batch w
  MidEnds submitted (err e, w) = Stored S lawful start submitted w

  mid_of_flush :
      (submitted : List Sample) (r : Result (List Sample) × World S)
      → FlushEnds S lawful start submitted r
      → MidEnds submitted r
  mid_of_flush submitted (ok batch, w) h = h.0
  mid_of_flush submitted (err e, w) h = h

  go_on :
      (submitted : List Sample) (deadline : ℕ) (r : Result (List Sample) × World S)
      → MidEnds submitted r
      → RoundEnds submitted
          (then_do r (λ batch. pure (continues (record { batch = batch; deadline = deadline }))))
  go_on submitted deadline (ok batch, w) h = h
  go_on submitted deadline (err e, w) h = h

  finish_round_lem :
      (c : WriterConfig) (t : Turn) (l : Loop) (submitted : List Sample) (w : World S)
      → Here submitted l.batch w
      → RoundEnds (submitted ++ submissions t.writing) (finish_round S c t l w)
  unfolding finish_round
  finish_round_lem c t l submitted w v = go_on (submitted ++ submissions t.writing) _ _ (
      if-cases (λ m. MidEnds (submitted ++ submissions t.writing) (m w)) _
        (flush S t.writing t.committed_at l.batch) (pure l.batch)
        (λ _.
          mid_of_flush (submitted ++ submissions t.writing) _
            (flush_lem S lawful start t.writing t.committed_at submitted l.batch w v))
        (λ _. Inv-more S lawful start submitted (submissions t.writing) l.batch w v))

  receive_item :
      (c : WriterConfig) (t : Turn) (l : Loop) (submitted : List Sample) (w : World S)
      (item : Option Sample) (x : Sample)
      → item ≡ some x
      → Here submitted (l.batch ++ x ∷ []) w
      → RoundEnds (submitted ++ submissions t.writing) (receive S c t l (some item) w)
  unfolding receive
  receive_item c t l submitted w none x e v = cc
  receive_item c t l submitted w (some y) x e v =
      finish_round_lem c t _ submitted w
        (subst (λ z. Here submitted (l.batch ++ z ∷ []) w) (some-injective x y (sym e)) v)

  RoundEnds-more :
      (submitted more : List Sample) (r : Result Outcome × World S)
      → RoundEnds submitted r
      → RoundEnds (submitted ++ more) r
  RoundEnds-more submitted more (ok (breaks l), w) h =
      (Inv-more S lawful start submitted more l.batch w h.0, h.1)
  RoundEnds-more submitted more (ok (continues l), w) h =
      Inv-more S lawful start submitted more l.batch w h
  RoundEnds-more submitted more (err e, w) h = Stored-more S lawful start submitted more w h

  take_front_lem :
      (c : WriterConfig) (t : Turn) (l : Loop) (submitted : List Sample) (w : World S)
      (items : List (Option Sample))
      → w.shared.queue.items ≡ items
      → Here submitted l.batch w
      → RoundEnds (submitted ++ submissions t.between ++ submissions t.writing) (
          receive S c t l
            (take_front w.shared items).0
            (record w { shared = (take_front w.shared items).1 }))
  unfolding receive
  take_front_lem c t l submitted w [] e v =
      let w' = others S t.between w in
      let v' = others-Inv S lawful start t.between submitted l.batch w v in
      if-cases (RoundEnds (submitted ++ submissions t.between ++ submissions t.writing))
        (drained w'.shared.queue) (pure (breaks l) w') (finish_round S c t l w')
        (λ empty. (
          Inv-more S lawful start (submitted ++ submissions t.between) (submissions t.writing)
              l.batch w' v',
          empty,
        ))
        (λ _. finish_round_lem c t l (submitted ++ submissions t.between) w' v')
  take_front_lem c t l submitted w (item ∷ items) e v =
      let (x, is_sample, flows) =
        Flows-pop submitted (v.written ++ l.batch) w.shared item items e v.flows in
      let later = submitted ++ submissions t.between in
      receive_item c t l later _ item x is_sample (
        Inv-more S lawful start submitted (submissions t.between) (l.batch ++ x ∷ [])
          (record w { shared = (take_front w.shared (item ∷ items)).1 })
          (record {
            written = v.written;
            stored = v.stored;
            flows =
                subst (λ gone. Flows submitted gone (take_front w.shared (item ∷ items)).1)
                  (append_assoc v.written l.batch (x ∷ [])) flows;
            totals = v.totals;
          }))

  round_lem :
      (c : WriterConfig) (t : Turn) (l : Loop) (submitted : List Sample) (w : World S)
      → Here submitted l.batch w
      → RoundEnds (submitted ++ turn_submissions t) (round S c t l w)
  unfolding round get
  round_lem c t l submitted w v =
      let w' = others S t.before w in
      subst (λ sub. RoundEnds sub (round S c t l w))
        (append_assoc (submitted ++ submissions t.before) (submissions t.between)
            (submissions t.writing)
          ∙ append_assoc submitted (submissions t.before)
              (submissions t.between ++ submissions t.writing))
        (take_front_lem c t l _ w' w'.shared.queue.items refl
          (others-Inv S lawful start t.before submitted l.batch w v))

  continue_lem :
      (c : WriterConfig) (ts : List Turn) (submitted : List Sample) (r : Result Outcome × World S)
      → RoundEnds submitted r
      → ((l : Loop) (w : World S)
          → Here submitted l.batch w
          → RoundEnds (submitted ++ all_submissions ts) (loop S c ts l w))
      → RoundEnds (submitted ++ all_submissions ts) (continue S r (loop S c ts))
  unfolding continue
  continue_lem c ts submitted (ok (breaks l), w) h later =
      RoundEnds-more submitted (all_submissions ts) (ok (breaks l), w) h
  continue_lem c ts submitted (ok (continues l), w) h later = later l w h
  continue_lem c ts submitted (err e, w) h later =
      RoundEnds-more submitted (all_submissions ts) (err e, w) h

  pub loop_lem :
      (c : WriterConfig) (ts : List Turn) (l : Loop) (submitted : List Sample) (w : World S)
      → Here submitted l.batch w
      → RoundEnds (submitted ++ all_submissions ts) (loop S c ts l w)
  unfolding loop
  loop_lem c [] l submitted w v = Inv-more S lawful start submitted [] l.batch w v
  loop_lem c (t ∷ ts) l submitted w v =
      subst (λ sub. RoundEnds sub (loop S c (t ∷ ts) l w))
        (append_assoc submitted (turn_submissions t) (all_submissions ts))
        (continue_lem c ts (submitted ++ turn_submissions t) (round S c t l w)
          (round_lem c t l submitted w v)
          (λ l' w' v'. loop_lem c ts l' (submitted ++ turn_submissions t) w' v'))
