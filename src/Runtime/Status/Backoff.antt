-- ===== src/Runtime/Status/Backoff.antt =====
-- The back-off of a sensor in src/runtime/status.py: what failures in a row, and then a success, do
-- to `can_run`.
use sensorctl.Prelude.{
  ℕ, zero, suc, ◌+◌, ◌-◌, ◌*◌, ◌^◌, ◌≤◌, min, ◌≡◌, refl, ap, ◌∙◌, String, true, false, some, List,
  [], ◌∷◌, arith, leb, length, Exception, ok,
}
use native.Mathlib.Nat.{two-pow-succ}
use sensorctl.Prelude.Dict.{lookup}
use sensorctl.Prelude.Exec.{Exec, pure, ◌>>◌}
use sensorctl.Runtime.Status.{
  SensorStatus, RuntimeStats, store, can_run, success, failure, delay_seconds,
}
use sensorctl.Runtime.Status.Methods.{
  after_success, after_failure, can_run_found, success_found, failure_found, lookup-store_self,
}

-- Failures in a row, each with its time.
unfoldable pub fail_all : String → List (Exception × ℕ) → Exec RuntimeStats (Unit {0})
fail_all sensor_id [] = pure tt
fail_all sensor_id ((e, now) ∷ rest) =
    let later = fail_all sensor_id rest in failure sensor_id e now >> later

-- The time of the last entry, or the given one.
abbrev pub last_time : ℕ → List (Exception × ℕ) → ℕ
last_time now [] = now
last_time now ((e, t) ∷ rest) = last_time t rest

pow_pos : (n : ℕ) → 1 ≤ 2 ^ n
pow_pos zero = omega arith
pow_pos (suc n) = omega (arith, pow_pos n, two-pow-succ n)

delay_bounds : (n : ℕ) → (1 ≤ delay_seconds n) × (delay_seconds n ≤ 60)
unfolding delay_seconds
delay_bounds n = omega (arith, pow_pos (n - 1))

-- What failures in a row leave at the sensor.
pub record AfterFailures (k : String) (n last : ℕ) (st : SensorStatus) (s : RuntimeStats)
    : Type 0 where
  pub status : SensorStatus
  pub found : lookup k s.sensors ≡ some status
  pub in_row : status.consecutive_failures ≡ st.consecutive_failures + n
  pub until : status.backoff_until_ms ≡ last + delay_seconds (st.consecutive_failures + n) * 1000

fail_all_lem :
    (k : String) (e : Exception) (now : ℕ) (rest : List (Exception × ℕ)) (st : SensorStatus)
    (s : RuntimeStats)
    → lookup k s.sensors ≡ some st
    → ((fail_all k ((e, now) ∷ rest) s).0 ≡ ok tt)
      × AfterFailures k
          (suc (length rest))
          (last_time now rest)
          st
          (fail_all k ((e, now) ∷ rest) s).1
unfolding fail_all
fail_all_lem k e now [] st s h = rw (failure_found k s h e now) (
  refl,
  record {
    status = after_failure e now st;
    found = lookup-store_self k (after_failure e now st) s;
    in_row = refl;
    until = refl;
  },
)
fail_all_lem k e now ((f, t) ∷ rest) st s h = rw (failure_found k s h e now) (
    let (r, a) =
      fail_all_lem k f t rest (after_failure e now st) (store k (after_failure e now st) s)
        (lookup-store_self k (after_failure e now st) s) in
    (
      r,
      record {
        status = a.status;
        found = a.found;
        in_row = omega (arith, a.in_row);
        until = a.until ∙ ap (λ (d : ℕ). last_time t rest + delay_seconds d * 1000) (omega arith);
      },
    ))

-- After one or more failures in a row since the last success, the sensor may run again exactly from
-- `min(60, 2 ** (n - 1))` seconds after the last of them, n being how many they were.
pub backoff_window :
    (k : String) (e : Exception) (now : ℕ) (rest : List (Exception × ℕ)) (st : SensorStatus)
    (s : RuntimeStats) (t : ℕ)
    → lookup k s.sensors ≡ some st
    → st.consecutive_failures ≡ 0
    → (can_run k t (fail_all k ((e, now) ∷ rest) s).1).0
      ≡ ok (leb (last_time now rest + min 60 (2 ^ length rest) * 1000) t)
unfolding delay_seconds
backoff_window k e now rest st s t h zero_failures =
    let (_, a) = fail_all_lem k e now rest st s h in
    let failed = (fail_all k ((e, now) ∷ rest) s).1 in
    rw (can_run_found k failed a.found t) (
      ap (λ (b : ℕ). ok (leb b t))
        (a.until ∙ ap (λ (n : ℕ). last_time now rest + min 60 (2 ^ n) * 1000) (omega arith)))

-- However many failures there were, the sensor may not run within the second after the last and may
-- run a minute after it. One success ends the wait: it reports a recovery, and the sensor may then
-- run at any time.
pub backoff_ends :
    (k : String) (e : Exception) (now : ℕ) (rest : List (Exception × ℕ)) (st : SensorStatus)
    (s : RuntimeStats) (t : ℕ) (read_at : String)
    → lookup k s.sensors ≡ some st
    → let failed = (fail_all k ((e, now) ∷ rest) s).1 in
      ((can_run k (last_time now rest + 999) failed).0 ≡ ok false)
      × ((can_run k (last_time now rest + 60_000) failed).0 ≡ ok true)
      × ((success k read_at failed).0 ≡ ok true)
      × ((can_run k t (success k read_at failed).1).0 ≡ ok true)
backoff_ends k e now rest st s t read_at h =
    let (_, a) = fail_all_lem k e now rest st s h in
    let n = st.consecutive_failures + suc (length rest) in
    let failed = (fail_all k ((e, now) ∷ rest) s).1 in
    let again = store k (after_success read_at a.status) failed in
    rw
      (
        success_found k failed a.found read_at,
        can_run_found k failed a.found (last_time now rest + 999),
        can_run_found k failed a.found (last_time now rest + 60_000),
      )
      (
        ground (arith, a.until, delay_bounds n),
        ground (arith, a.until, delay_bounds n),
        ground (arith, a.in_row),
        rw (can_run_found k again (lookup-store_self k (after_success read_at a.status) failed) t)
            (ground arith),
      )
