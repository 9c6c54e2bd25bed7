-- ===== src/Runtime/Writer/Flow.antt =====
-- The queue of src/runtime/queue.py under what the other threads do: what it has admitted so far.
use mathlib.Core.List.{append-nil, append_assoc, map-append}
use sensorctl.Prelude.{
  ◌≡◌, refl, sym, ap, ◌∙◌, Option, some, List, [], ◌∷◌, ◌++◌, map, arith, length, length-append,
  if-cases, Result,
}
use sensorctl.Prelude.Subseq.{Subseq, Subseq-append, Subseq-more, Subseq-refl}
use sensorctl.Model.{Sample}
use sensorctl.Runtime.Status.{accepted, dropped}
use sensorctl.Runtime.Status.Counts.{accepted-accepted, accepted-dropped, committed-dropped}
use sensorctl.Runtime.Queue.{Shared, is_full, admit, with_stats, submit, close}
use sensorctl.Runtime.Writer.{Event, submits, closes, happen, happen_all, Turn}

abbrev pub submission : Event → List Sample
submission (submits x) = x ∷ []
submission closes = []

-- The samples that the workers submit, in order.
abbrev pub submissions : List Event → List Sample
submissions [] = []
submissions (e ∷ es) = submission e ++ submissions es

abbrev pub turn_submissions : Turn → List Sample
turn_submissions t = submissions t.before ++ (submissions t.between ++ submissions t.writing)

abbrev pub all_submissions : List Turn → List Sample
all_submissions [] = []
all_submissions (t ∷ ts) = turn_submissions t ++ all_submissions ts

-- The queue and the counters against the samples admitted so far, `journal`, a subsequence of those
-- submitted: what left the queue is a front part of the journal, and the totals agree.
pub record Flows (submitted gone : List Sample) (s : Shared) : Type 0 where
  pub journal : List Sample
  pub queued : List Sample
  pub admitted : Subseq journal submitted
  pub items : s.queue.items ≡ map some queued
  pub split : gone ++ queued ≡ journal
  pub counted : s.stats.accepted_count ≡ length journal

submit-Flows :
    (x : Sample) (submitted gone : List Sample) (s : Shared)
    → Flows submitted gone s
    → Flows (submitted ++ x ∷ []) gone (submit x s).1
unfolding submit
submit-Flows x submitted gone s f =
    if-cases P s.queue.closed _ _ (λ _. refused)
      (λ _. if-cases P (is_full s.queue) _ _ (λ _. refused) (λ _. admission))
  where
    P : Result (Unit {0}) × Shared → Type 0
    P r = Flows (submitted ++ x ∷ []) gone r.1

    refused : Flows (submitted ++ x ∷ []) gone (with_stats (dropped x.sensor_id) s).1
    refused = record {
      journal = f.journal;
      queued = f.queued;
      admitted = Subseq-more (x ∷ []) f.admitted;
      items = f.items;
      split = f.split;
      counted = accepted-dropped x.sensor_id s.stats ∙ f.counted;
    }

    admission : Flows (submitted ++ x ∷ []) gone (admit x s)
    admission = record {
      journal = f.journal ++ x ∷ [];
      queued = f.queued ++ x ∷ [];
      admitted = Subseq-append (x ∷ []) (x ∷ []) f.admitted (Subseq-refl (x ∷ []));
      items = ap (λ l. l ++ some x ∷ []) f.items ∙ sym (map-append some f.queued (x ∷ []));
      split = sym (append_assoc gone f.queued (x ∷ [])) ∙ ap (λ l. l ++ x ∷ []) f.split;
      counted =
          omega (arith, accepted-accepted s.stats, f.counted, length-append f.journal (x ∷ []));
    }

happen-Flows :
    (e : Event) (submitted gone : List Sample) (s : Shared)
    → Flows submitted gone s
    → Flows (submitted ++ submission e) gone (happen e s)
unfolding happen
happen-Flows (submits x) submitted gone s f = submit-Flows x submitted gone s f
happen-Flows closes submitted gone s f =
    unfold close in
    record {
      journal = f.journal;
      queued = f.queued;
      admitted = Subseq-more [] f.admitted;
      items = f.items;
      split = f.split;
      counted = f.counted;
    }

pub happen_all-Flows :
    (es : List Event) (submitted gone : List Sample) (s : Shared)
    → Flows submitted gone s
    → Flows (submitted ++ submissions es) gone (happen_all es s)
unfolding happen_all
happen_all-Flows [] submitted gone s f = rw append-nil f
happen_all-Flows (e ∷ es) submitted gone s f =
    rw (← append_assoc submitted (submission e) (submissions es))
      (happen_all-Flows es _ gone (happen e s) (happen-Flows e submitted gone s f))

-- The other threads leave the count of committed samples alone.
submit-committed_count :
    (x : Sample) (s : Shared) → (submit x s).1.stats.committed_count ≡ s.stats.committed_count
unfolding submit accepted
submit-committed_count x s =
    if-cases P s.queue.closed _ _ (λ _. refused)
      (λ _. if-cases P (is_full s.queue) _ _ (λ _. refused) (λ _. refl))
  where
    P : Result (Unit {0}) × Shared → Type 0
    P r = r.1.stats.committed_count ≡ s.stats.committed_count

    refused : P (with_stats (dropped x.sensor_id) s)
    refused = committed-dropped x.sensor_id s.stats

pub happen_all-committed_count :
    (es : List Event) (s : Shared)
    → (happen_all es s).stats.committed_count ≡ s.stats.committed_count
unfolding happen_all happen close
happen_all-committed_count [] s = refl
happen_all-committed_count (submits x ∷ es) s =
    happen_all-committed_count es _ ∙ submit-committed_count x s
happen_all-committed_count (closes ∷ es) s = happen_all-committed_count es _

-- The item that `get` takes is a sample: the oldest that is still queued.
pub Flows-pop :
    (submitted gone : List Sample) (s : Shared) (item : Option Sample)
    (items : List (Option Sample))
    → s.queue.items ≡ item ∷ items
    → Flows submitted gone s
    → (x : Sample) × (item ≡ some x)
      × Flows submitted (gone ++ x ∷ []) (record s { queue = record (s.queue) { items = items } })
Flows-pop submitted gone s item items e f = go f.queued (sym e ∙ f.items) f.split
  where
    go :
        (queued : List Sample)
        → item ∷ items ≡ map some queued
        → gone ++ queued ≡ f.journal
        → (x : Sample) × (item ≡ some x)
          × Flows submitted
              (gone ++ x ∷ [])
              (record s { queue = record (s.queue) { items = items } })
    go [] same split = cc
    go (x ∷ queued) same split = (
      x,
      cc,
      record {
        journal = f.journal;
        queued = queued;
        admitted = f.admitted;
        items = cc;
        split = append_assoc gone (x ∷ []) queued ∙ split;
        counted = f.counted;
      },
    )
