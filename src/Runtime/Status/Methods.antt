-- ===== src/Runtime/Status/Methods.antt =====
-- The methods of src/runtime/status.py at a sensor that has an entry: each returns, and replaces that
-- entry alone. A sensor with no entry is a `KeyError` that changes nothing.
use sensorctl.Prelude.{
  ℕ, ◌+◌, ◌*◌, ◌≡◌, refl, String, true, false, not, none, some, arith, leb, ltb, if◌then◌else◌,
  eq_refl, str_eq, ◌<>◌, Exception, type_name, ok,
}
use sensorctl.Prelude.Dict.{lookup, lookup-insert}
use sensorctl.Runtime.Status.{
  SensorStatus, RuntimeStats, store, dispatch, can_run, success, failure, dropped, missed,
  delay_seconds,
}

abbrev pub after_dispatch : SensorStatus → SensorStatus
after_dispatch st =
    if st.pending
    then record st { missed_deadlines = st.missed_deadlines + 1 }
    else record st { pending = true }

abbrev pub after_success : String → SensorStatus → SensorStatus
after_success read_at st = record st {
  pending = false;
  successful_reads = st.successful_reads + 1;
  consecutive_failures = 0;
  backoff_until_ms = 0;
  last_read_at = some read_at;
  last_error = none;
}

abbrev pub after_failure : Exception → ℕ → SensorStatus → SensorStatus
after_failure error now_ms st = record st {
  pending = false;
  failed_reads = st.failed_reads + 1;
  consecutive_failures = st.consecutive_failures + 1;
  backoff_until_ms = now_ms + delay_seconds (st.consecutive_failures + 1) * 1000;
  last_error = some (type_name error.kind <> (": " <> error.message));
}

abbrev pub after_dropped : SensorStatus → SensorStatus
after_dropped st = record st { dropped_samples = st.dropped_samples + 1 }

abbrev pub after_missed : ℕ → SensorStatus → SensorStatus
after_missed count st = record st { missed_deadlines = st.missed_deadlines + count }

module _ (k : String) (s : RuntimeStats) {st : SensorStatus}
    (known : lookup k s.sensors ≡ some st) where
  pub dispatch_found : dispatch k s ≡ (ok (not st.pending), store k (after_dispatch st) s)
  unfolding dispatch
  dispatch_found = rw (known, dispatch) (ground arith)

  pub can_run_found : (now : ℕ) → can_run k now s ≡ (ok (leb st.backoff_until_ms now), s)
  unfolding can_run
  can_run_found now = rw (known, can_run)

  pub success_found :
      (read_at : String)
      → success k read_at s
        ≡ (ok (ltb 0 st.consecutive_failures), store k (after_success read_at st) s)
  unfolding success
  success_found read_at = rw (known, success)

  pub failure_found :
      (e : Exception) (now : ℕ) → failure k e now s ≡ (ok tt, store k (after_failure e now st) s)
  unfolding failure
  failure_found e now = rw (known, failure)

  pub dropped_found : dropped k s ≡ (ok tt, store k (after_dropped st) s)
  unfolding dropped
  dropped_found = rw (known, dropped)

  pub missed_found : (count : ℕ) → missed k count s ≡ (ok tt, store k (after_missed count st) s)
  unfolding missed
  missed_found count = rw (known, missed)

pub lookup-store_self :
    (k : String) (st : SensorStatus) (s : RuntimeStats) → lookup k (store k st s).sensors ≡ some st
lookup-store_self k st s = rw (lookup-insert k k, eq_refl k) refl

pub lookup-store_ne :
    (k j : String) (st : SensorStatus) (s : RuntimeStats)
    → str_eq k j ≡ false
    → lookup j (store k st s).sensors ≡ lookup j s.sensors
lookup-store_ne k j st s h = rw (lookup-insert k j, h) refl
