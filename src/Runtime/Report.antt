-- ===== src/Runtime/Report.antt =====
-- `RuntimeStats.snapshot` and the thread `StatusWriter` of src/runtime/status.py, which keeps a file
-- with the statistics. The text of the JSON document and the file system are parameters.
pub mod Whole
use sensorctl.Prelude.{
  ℕ, String, Bool, true, false, Option, none, some, List, [], ◌∷◌, ◌++◌, is_blank, split, join,
  length, if◌then◌else◌, ◌<>◌, Exception, Result, ok, err,
}
use sensorctl.Prelude.Dict.{Dict}
use sensorctl.Prelude.Exec.{Exec, pure, ◌>>◌}
use sensorctl.Config.Paths.{FilePath}
use sensorctl.Runtime.Status.{SensorStatus, RuntimeStats, ShutdownReport}
use sensorctl.Runtime.Queue.{Shared}

-- The dict that `snapshot` returns.
pub record Snapshot : Type 0 where
  pub started_at : String
  pub updated_at : String
  pub last_commit_at : Option String
  pub accepted_samples : ℕ
  pub committed_samples : ℕ
  pub shutdown : Option ShutdownReport
  pub queue_size : ℕ
  pub queue_capacity : ℕ
  pub sensors : Dict SensorStatus

abbrev pub snapshot : ℕ → ℕ → String → RuntimeStats → Snapshot
snapshot queue_size queue_capacity now s = record {
  started_at = s.started_at;
  updated_at = now;
  last_commit_at = s.last_commit_at;
  accepted_samples = s.accepted_count;
  committed_samples = s.committed_count;
  shutdown = s.shutdown_report;
  queue_size = queue_size;
  queue_capacity = queue_capacity;
  sensors = s.sensors;
}

-- The parts of a name between its dots without the last; a leading dot begins no suffix.
abbrev pub drop_suffix : List String → List String
drop_suffix [] = []
drop_suffix (p ∷ []) = p ∷ []
drop_suffix (p ∷ q ∷ []) = if is_blank p then p ∷ q ∷ [] else p ∷ []
drop_suffix (p ∷ q ∷ r ∷ ps) = p ∷ drop_suffix (q ∷ r ∷ ps)

abbrev pub on_last : (String → String) → List String → List String
on_last f [] = []
on_last f (p ∷ []) = f p ∷ []
on_last f (p ∷ q ∷ ps) = p ∷ on_last f (q ∷ ps)

-- `path.with_suffix(suffix)`
unfoldable pub with_suffix : FilePath → String → FilePath
with_suffix path suffix =
    join "/"
      (on_last (λ name. join "." (drop_suffix (split b'.' name)) <> suffix) (split b'/' path))

-- What the thread asks of the file system; `look` is the content that a reader of the file sees.
pub record FileSystem : Type 1 where
  pub State : Type 0
  pub look : FilePath → State → Option String
  pub make_parent : FilePath → Exec State (Unit {0})
  pub write_text : FilePath → String → Exec State (Unit {0})
  pub replace : FilePath → FilePath → Exec State (Unit {0})

-- What a round observes: whether the wait ended by the stop event, the shared state, the time.
pub record Round : Type 0 where
  pub is_stopped : Bool
  pub shared : Shared
  pub now : String

module _ (F : FileSystem) (dumps : Snapshot → String) (path : FilePath) (capacity : ℕ) where
  abbrev pub payload : Shared → String → String
  payload s now = dumps (snapshot (length s.queue.items) capacity now s.stats) <> "\n"

  unfoldable pub write : Shared → String → Exec F.State (Unit {0})
  write s now = do
    F.make_parent path
    F.write_text (with_suffix path ".tmp") (payload s now)
    F.replace (with_suffix path ".tmp") path

  unfoldable pub loop : List Round → Exec F.State (Unit {0})
  loop [] = pure tt
  loop (r ∷ rounds) =
      let rest = loop rounds in if r.is_stopped then pure tt else (write r.shared r.now >> rest)

  -- `self.error` at the end, and whether the thread set the stop event.
  abbrev pub failed : Result (Unit {0}) → Option Exception × Bool
  failed (ok u) = (none, false)
  failed (err e) = (some e, true)

  unfoldable pub run : List Round → F.State → (Option Exception × Bool) × F.State
  run rounds f = let (r, f') = loop rounds f in (failed r, f')
