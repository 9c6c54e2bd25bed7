-- ===== src/Runtime/Worker/Reads.antt =====
-- The retry loop of src/runtime/worker.py: how many reads it makes, and which of them counts.
use sensorctl.Prelude.{
  ℕ, zero, suc, ◌+◌, ◌≡◌, refl, sym, subst, if-cases, ◌⊎◌, inl, inr, true, false, Option, none,
  some, arith, Exception, Result, ok, err,
}
use sensorctl.Prelude.Dict.{Dict}
use sensorctl.Model.{Float}
use sensorctl.Hardware.Driver.{SensorDriver}
use sensorctl.Runtime.Worker.{Bus, Reading, now_ms, after_read, read_loop}

module _ (W : Type 0) (c : Bus W) (driver : SensorDriver W) where
  -- The hardware after so many reads.
  abbrev pub after_reads : ℕ → W → W
  after_reads zero w = w
  after_reads (suc n) w = after_reads n (driver.read w).1

  -- So many reads fail in a row, and the stop event is not set after any of them.
  abbrev pub AllFail : ℕ → W → Type 0
  AllFail zero w = Unit {0}
  AllFail (suc n) w =
      ((e : Exception) × ((driver.read w).0 ≡ err e))
      × (c.is_stopped (driver.read w).1 ≡ false)
      × AllFail n (driver.read w).1

  -- The last of the reads, which began in the given state, is what the loop gives: the values with
  -- the clocks before that read, or its exception if no read was left or the stop event was set.
  abbrev pub Concludes : W → ℕ → Result (Dict Float) → Result Reading → Type 0
  Concludes w left (ok found) r =
      r ≡ ok (record { read_at = c.local_now w; monotonic_ms = now_ms W c w; values = found })
  Concludes w left (err e) r = (r ≡ err e) × ((left ≡ 0) ⊎ (c.is_stopped (driver.read w).1 ≡ true))

  pub record Attempts (n : ℕ) (w : W) (result : Result Reading × W) : Type 0 where
    pub failures : ℕ
    pub left : ℕ
    pub counted : failures + suc left ≡ n
    pub failed : AllFail failures w
    pub moved : result.1 ≡ after_reads (suc failures) w
    pub concluded :
        Concludes (after_reads failures w) left (driver.read (after_reads failures w)).0 result.0

  Concludes-moved :
      (w : W) (left : ℕ) (found : Result (Dict Float)) (r : Result Reading)
      → (driver.read w).0 ≡ found
      → Concludes w left found r
      → Concludes w left (driver.read w).0 r
  Concludes-moved w left found r e h = subst (λ f. Concludes w left f r) (sym e) h

  ends_here :
      (n : ℕ) (w : W) (found : Result (Dict Float)) (r : Result Reading)
      → (driver.read w).0 ≡ found
      → Concludes w n found r
      → Attempts (suc n) w (r, (driver.read w).1)
  ends_here n w found r e h = record {
    failures = 0;
    left = n;
    counted = omega arith;
    failed = tt;
    moved = refl;
    concluded = Concludes-moved w n found r e h;
  }

  goes_on :
      (n : ℕ) (w : W) (e : Exception) (result : Result Reading × W)
      → (driver.read w).0 ≡ err e
      → c.is_stopped (driver.read w).1 ≡ false
      → Attempts n (driver.read w).1 result
      → Attempts (suc n) w result
  goes_on n w e result raised open_yet a = record {
    failures = suc a.failures;
    left = a.left;
    counted = omega (arith, a.counted);
    failed = ((e, raised), open_yet, a.failed);
    moved = a.moved;
    concluded = a.concluded;
  }

  last_or_next :
      (n : ℕ) (w : W) (x : Exception)
      → (driver.read w).0 ≡ err x
      → c.is_stopped (driver.read w).1 ≡ false
      → ((last : Option Exception) (m : ℕ)
          → n ≡ suc m
          → Attempts n (driver.read w).1 (read_loop W c driver n last (driver.read w).1))
      → Attempts (suc n) w (read_loop W c driver n (some x) (driver.read w).1)
  unfolding read_loop
  last_or_next zero w x e open_yet rest = ends_here 0 w (err x) (err x) e (refl, inl refl)
  last_or_next (suc m) w x e open_yet rest = goes_on (suc m) w x _ e open_yet (rest (some x) m refl)

  after_read_lem :
      (n : ℕ) (w : W) (found : Result (Dict Float))
      → (driver.read w).0 ≡ found
      → ((last : Option Exception) (m : ℕ)
          → n ≡ suc m
          → Attempts n (driver.read w).1 (read_loop W c driver n last (driver.read w).1))
      → Attempts (suc n) w (after_read W c w (found, (driver.read w).1) (read_loop W c driver n))
  after_read_lem n w (ok found) e rest = ends_here n w (ok found) _ e refl
  after_read_lem n w (err x) e rest =
      if-cases (Attempts (suc n) w) (c.is_stopped (driver.read w).1) _ _
        (λ stopped. ends_here n w (err x) (err x) e (refl, inr stopped))
        (λ open_yet. last_or_next n w x e open_yet rest)

  read_loop_lem :
      (n : ℕ) (last : Option Exception) (w : W)
      → Attempts (suc n) w (read_loop W c driver (suc n) last w)
  unfolding read_loop
  read_loop_lem zero last w = after_read_lem 0 w _ refl λ last m absurd_eq. absurd (omega arith)
  read_loop_lem (suc n) last w =
      after_read_lem (suc n) w _ refl λ last' m _. read_loop_lem n last' (driver.read w).1

  -- A task reads its sensor at least once and at most `retries + 1` times: it stops at the first read
  -- that returns, which gives the values and the clocks taken before it; otherwise it raises the
  -- exception of the last read, which was the last allowed or one that the stop event followed.
  pub read_loop-Attempts :
      (w : W) → Attempts (c.retries + 1) w (read_loop W c driver (c.retries + 1) none w)
  read_loop-Attempts w =
      subst (λ n. Attempts n w (read_loop W c driver n none w)) (suc_retries)
        (read_loop_lem c.retries none w)
    where
      suc_retries : suc c.retries ≡ c.retries + 1
      suc_retries = omega arith
