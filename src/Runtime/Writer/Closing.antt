-- ===== src/Runtime/Writer/Closing.antt =====
-- What the other threads and a `flush` of src/runtime/writer.py leave of a closed queue.
use sensorctl.Prelude.{
  ℕ, ◌≡◌, refl, ap, ◌∙◌, String, true, some, List, [], ◌∷◌, ◌++◌, map, arith, length, All, All-imp,
  if-cases, Result, ok, err,
}
use sensorctl.Prelude.Dict.{has}
use sensorctl.Prelude.Exec.{>>=-cases}
use sensorctl.Model.{Sample}
use sensorctl.Runtime.Status.{committed}
use sensorctl.Runtime.Status.Counts.{IsKnown, has-dropped, committed_known}
use sensorctl.Runtime.Queue.{Shared, SampleQueue, with_stats, submit, close, drained}
use sensorctl.Runtime.Store.{SampleStore}
use sensorctl.Runtime.Writer.{
  Event, submits, closes, happen, happen_all, World, others, on_db, on_shared, flush,
}

-- On a closed queue the other threads change neither the queue nor the set of sensors.
pub record Unmoved (s t : Shared) : Type 0 where
  pub queue_same : t.queue ≡ s.queue
  pub sensors_same : (j : String) → has j t.stats.sensors ≡ has j s.stats.sensors

submit-Unmoved : (x : Sample) (s : Shared) → s.queue.closed ≡ true → Unmoved s (submit x s).1
unfolding submit
submit-Unmoved x s shut =
    if-cases P s.queue.closed _ _
      (λ _. record { queue_same = refl; sensors_same = λ j. has-dropped x.sensor_id j s.stats })
      (λ opened. absurd (ground (arith, shut, opened)))
  where
    P : Result (Unit {0}) × Shared → Type 0
    P r = Unmoved s r.1

close-Unmoved : (s : Shared) → s.queue.closed ≡ true → Unmoved s (close s)
unfolding close
close-Unmoved s shut = record { queue_same = ground arith; sensors_same = λ j. refl }

happen-Unmoved : (e : Event) (s : Shared) → s.queue.closed ≡ true → Unmoved s (happen e s)
unfolding happen
happen-Unmoved (submits x) s shut = submit-Unmoved x s shut
happen-Unmoved closes s shut = close-Unmoved s shut

pub happen_all-Unmoved :
    (es : List Event) (s : Shared) → s.queue.closed ≡ true → Unmoved s (happen_all es s)
unfolding happen_all
happen_all-Unmoved [] s shut = record { queue_same = refl; sensors_same = λ j. refl }
happen_all-Unmoved (e ∷ es) s shut =
    let first = happen-Unmoved e s shut in
    let later =
      happen_all-Unmoved es (happen e s)
        (ap (λ (q : SampleQueue). q.closed) first.queue_same ∙ shut) in
    record {
      queue_same = later.queue_same ∙ first.queue_same;
      sensors_same = λ j. later.sensors_same j ∙ first.sensors_same j;
    }

pub is_drained : (q : SampleQueue) → q.closed ≡ true → q.items ≡ [] → drained q ≡ true
unfolding drained
is_drained q shut none_left = ground arith

-- A store that never raises.
pub record IsTotal (S : SampleStore) : Type 0 where
  pub write_total : (samples : List Sample) (s : S.State) → (S.write samples s).0 ≡ ok tt

-- The queue is closed with `n` samples left, and the sensors of all that the writer has are known.
pub record Closing (batch : List Sample) (n : ℕ) (s : Shared) : Type 0 where
  pub queued : List Sample
  pub items : s.queue.items ≡ map some queued
  pub left : length queued ≡ n
  pub shut : s.queue.closed ≡ true
  pub known : All (IsKnown s.stats) (batch ++ queued)

pub Unmoved-Closing :
    (batch : List Sample) (n : ℕ) (s t : Shared)
    → Unmoved s t
    → Closing batch n s
    → Closing batch n t
Unmoved-Closing batch n s t same c = record {
  queued = c.queued;
  items = ap (λ (q : SampleQueue). q.items) same.queue_same ∙ c.items;
  left = c.left;
  shut = ap (λ (q : SampleQueue). q.closed) same.queue_same ∙ c.shut;
  known =
      All-imp (IsKnown s.stats) (IsKnown t.stats) (batch ++ c.queued)
        (λ x h. same.sensors_same x.sensor_id ∙ h) c.known;
}

All-front {ℓ κ} :
    {A : Type ℓ} (P : A → Type κ) (xs ys : List A) → All P (xs ++ ys) → All P xs × All P ys
All-front P [] ys h = (tt, h)
All-front P (x ∷ xs) ys h = let (hx, hy) = All-front P xs ys h.1 in ((h.0, hx), hy)

module _ (S : SampleStore) where
  abbrev pub FlushOk : ℕ → Result (List Sample) × World S → Type 0
  FlushOk n (ok batch, w) = Closing batch n w.shared × (batch ≡ [])
  FlushOk n (err e, w) = ⊥

  pub flush_ok :
      (total : IsTotal S) (es : List Event) (at : String) (batch : List Sample) (n : ℕ)
      (w : World S)
      → Closing batch n w.shared
      → FlushOk n (flush S es at batch w)
  unfolding flush
  flush_ok total es at [] n w c = (c, refl)
  flush_ok total es at (x ∷ xs) n w c =
      >>=-cases (FlushOk n) (on_db S (S.write (x ∷ xs))) _ w
        (λ u wrote.
          >>=-cases (FlushOk n) (on_shared S (with_stats (committed (x ∷ xs) at))) _
            (others S es (record w { db = (S.write (x ∷ xs) w.db).1 })) (λ _ _. (recorded, refl))
            (λ e raised. cc (recording.0)))
        (λ e refused. cc (total.write_total (x ∷ xs) w.db))
    where
      s' : Shared
      s' = happen_all es w.shared

      c' : Closing (x ∷ xs) n s'
      c' = Unmoved-Closing (x ∷ xs) n w.shared s' (happen_all-Unmoved es w.shared c.shut) c

      known : All (IsKnown s'.stats) (x ∷ xs) × All (IsKnown s'.stats) c'.queued
      known = All-front (IsKnown s'.stats) (x ∷ xs) c'.queued c'.known

      recording :
          ((committed (x ∷ xs) at s'.stats).0 ≡ ok tt)
          × ((j : String)
              → has j (committed (x ∷ xs) at s'.stats).1.sensors ≡ has j s'.stats.sensors)
      recording = committed_known (x ∷ xs) at s'.stats known.0

      recorded : Closing [] n (record s' { stats = (committed (x ∷ xs) at s'.stats).1 })
      recorded = record {
        queued = c'.queued;
        items = c'.items;
        left = c'.left;
        shut = c'.shut;
        known =
            All-imp (IsKnown s'.stats) (IsKnown (committed (x ∷ xs) at s'.stats).1) c'.queued
              (λ y h. recording.1 y.sensor_id ∙ h) known.1;
      }
