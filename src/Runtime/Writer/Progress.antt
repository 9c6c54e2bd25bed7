-- ===== src/Runtime/Writer/Progress.antt =====
-- The writer of src/runtime/writer.py on a closed queue: how many turns are left.
use sensorctl.Prelude.{ℕ, zero, suc, List, Result, ok, err}
use sensorctl.Prelude.Exec.{Exec}
use sensorctl.Model.{Sample}
use sensorctl.Runtime.Store.{SampleStore}
use sensorctl.Runtime.Writer.{Outcome, breaks, continues, World}
use sensorctl.Runtime.Writer.Closing.{IsTotal, Closing}

module _ (S : SampleStore) (total : IsTotal S) where
  -- A round breaks, or goes on with one sample less in the queue.
  abbrev RoundOk : ℕ → Result Outcome × World S → Type 0
  RoundOk n (ok (breaks l), w) = Closing l.batch 0 w.shared
  RoundOk n (ok (continues l), w) = Closing l.batch n w.shared
  RoundOk n (err e, w) = ⊥

  abbrev MidOk : ℕ → Result (List Sample) × World S → Type 0
  MidOk n (ok batch, w) = Closing batch n w.shared
  MidOk n (err e, w) = ⊥

  -- With nothing left the round breaks.
  abbrev StepOk : ℕ → Result Outcome × World S → Type 0
  StepOk zero (ok (breaks l), w) = Closing l.batch 0 w.shared
  StepOk zero (ok (continues l), w) = ⊥
  StepOk zero (err e, w) = ⊥
  StepOk (suc n) r = RoundOk n r

  -- The loop is left.
  abbrev LoopOk : Result Outcome × World S → Type 0
  LoopOk (ok (breaks l), w) = Closing l.batch 0 w.shared
  LoopOk (ok (continues l), w) = ⊥
  LoopOk (err e, w) = ⊥
